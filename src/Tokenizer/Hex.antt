-- ===== src/Tokenizer/Hex.antt =====
-- src/utils/tokenizer.c, hex2int against the list of the hexadecimal digits.
use service_mesh_agent.Base.{
  ℕ, suc, ◌≡◌, refl, ap, ◌∙◌, [], ◌∷◌, ◌==◌, if◌then◌else◌, Bytes, codes, Option, none, some,
  Bool-cases, inl, inr, arith,
}
use service_mesh_agent.Tokenizer.Serialize.{hex2int}

-- The place of a char in a list, the first being `k`.
unfoldable pub place : ℕ → ℕ → Bytes → Option ℕ
place k c [] = none
place k c (d ∷ ds) = if c == d then some k else place (suc k) c ds

abbrev pub upper : Bytes
upper = codes "0123456789ABCDEF"

abbrev pub lower : Bytes
lower = codes "0123456789abcdef"

unfoldable first_of : Option ℕ → Option ℕ → ℕ → ℕ
first_of (some v) o d = v
first_of none (some v) d = v
first_of none none d = d

-- A hexadecimal digit is worth its place among the sixteen, in upper or in lower case. Other chars are
-- left to the code.
unfoldable pub hex_value : ℕ → ℕ
unfolding first_of
hex_value c = first_of (place 0 c upper) (place 0 c lower) (hex2int c)

-- hex2int gives the digits of the list the values from `k` on.
IsTable : ℕ → Bytes → Type 0
IsTable k [] = Unit
IsTable k (d ∷ ds) = (hex2int d ≡ k) × IsTable (suc k) ds

found : (k c v : ℕ) (ds : Bytes) → IsTable k ds → place k c ds ≡ some v → hex2int c ≡ v
unfolding place IsTable
found k c v [] t h = absurd (cc)
found k c v (d ∷ ds) t h = elim (Bool-cases (c == d)) [
  | inl e ↦
      let same : c ≡ d = ground arith in
      let at : some k ≡ some v = rw e at h in let is : k ≡ v = cc in ap hex2int same ∙ (t.0 ∙ is)
  | inr n ↦ found (suc k) c v ds t.1 (rw n at h)
]

upper-IsTable : IsTable 0 upper
unfolding IsTable hex2int
upper-IsTable = (
  refl,
  (
    refl,
    (
      refl,
      (
        refl,
        (
          refl,
          (
            refl,
            (refl, (refl, (refl, (refl, (refl, (refl, (refl, (refl, (refl, (refl, tt)))))))))),
          ),
        ),
      ),
    ),
  ),
)

lower-IsTable : IsTable 0 lower
unfolding IsTable hex2int
lower-IsTable = (
  refl,
  (
    refl,
    (
      refl,
      (
        refl,
        (
          refl,
          (
            refl,
            (refl, (refl, (refl, (refl, (refl, (refl, (refl, (refl, (refl, (refl, tt)))))))))),
          ),
        ),
      ),
    ),
  ),
)

first_of_lem :
    (o o' : Option ℕ) (d : ℕ)
    → ((v : ℕ) → o ≡ some v → d ≡ v)
    → ((v : ℕ) → o' ≡ some v → d ≡ v)
    → d ≡ first_of o o' d
unfolding first_of
first_of_lem (some v) o' d f g = f v refl
first_of_lem none (some v) d f g = g v refl
first_of_lem none none d f g = refl

pub hex2int_lem : (c : ℕ) → hex2int c ≡ hex_value c
unfolding hex_value
hex2int_lem c =
    first_of_lem (place 0 c upper) (place 0 c lower) (hex2int c)
      (λ v e. found 0 c v upper upper-IsTable e) (λ v e. found 0 c v lower lower-IsTable e)
