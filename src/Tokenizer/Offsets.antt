-- ===== src/Tokenizer/Offsets.antt =====
-- src/utils/tokenizer.c: the offsets that the splits find in a body key=value&...&key=value, where no
-- key has a '=' and no value a '&'.
use service_mesh_agent.Base.{
  ℕ, zero, suc, ◌+◌, ◌*◌, ◌≤◌, ◌<◌, ◌≡◌, ◌≢◌, refl, sym, ap, ◌∙◌, List, [], ◌∷◌, ◌++◌, ◌==◌, Bytes,
  Bool, true, false, ◌&&◌, not, Bool-cases, inl, inr, length, drop, arith, Exec, done, append_assoc,
  length-append, drop-drop, drop_all, drop_of_eq,
}
use service_mesh_agent.Tokenizer.First.{first_of}
use service_mesh_agent.Tokenizer.Scan.{next_of}

-- `c` does not occur.
abbrev pub Lacks : ℕ → Bytes → Type 0
Lacks c [] = Unit
Lacks c (b ∷ bs) = (b ≢ c) × Lacks c bs

-- The same as a test.
unfoldable pub lacks : ℕ → Bytes → Bool
lacks c [] = true
lacks c (b ∷ bs) = not (b == c) && lacks c bs

ne_of : (b c : ℕ) (r : Bool) → (not (b == c) && r) ≡ true → (b ≢ c) × (r ≡ true)
ne_of b c true h = (λ e. ground (arith, h, e), refl)
ne_of b c false h =
    absurd
      (elim (Bool-cases (b == c)) [ inl t ↦ ground (arith, h, t) | inr f ↦ ground (arith, h, f) ])

pub lacks-Lacks : (c : ℕ) (bs : Bytes) → lacks c bs ≡ true → Lacks c bs
unfolding lacks
lacks-Lacks c [] h = tt
lacks-Lacks c (b ∷ bs) h = let (n, r) = ne_of b c (lacks c bs) h in (n, lacks-Lacks c bs r)

-- One field of a form.
pub record Field : Type 0 where
  pub key : Bytes
  pub value : Bytes

abbrev pub IsForm : List Field → Type 0
IsForm [] = Unit
IsForm (p ∷ ps) = Lacks b'=' p.key × Lacks b'&' p.value × IsForm ps

-- The body of a form.
abbrev pub encode : List Field → Bytes
encode [] = []
encode (p ∷ []) = p.key ++ b'=' ∷ p.value
encode (p ∷ q ∷ ps) = p.key ++ b'=' ∷ (p.value ++ b'&' ∷ encode (q ∷ ps))

-- Where the keys and the values of a form that begins at `base` end.
abbrev pub ends_from : ℕ → List Field → List ℕ
ends_from base [] = []
ends_from base (p ∷ ps) =
    let key_end = base + length p.key in
    let val_end = key_end + 1 + length p.value in key_end ∷ val_end ∷ ends_from (val_end + 1) ps

pub first_of-append :
    (c : ℕ) (u w : Bytes) → Lacks c u → first_of c (u ++ w) ≡ length u + first_of c w
first_of-append c [] w h = omega arith
first_of-append c (b ∷ u) w h = ground (arith, first_of-append c u w h.1, h.0)

-- The memory from `b` on holds the rest of a form.
module _ (str : Bytes) (p : Field) (b : ℕ) (x : Bytes) (e : drop b str ≡ p.key ++ b'=' ∷ x) where
  pub at_key_end : drop (b + length p.key) str ≡ b'=' ∷ x
  at_key_end =
      sym (drop-drop (length p.key) b str)
      ∙ (ap (drop (length p.key)) e ∙ drop_all p.key (b'=' ∷ x))

  finds_key : Lacks b'=' p.key → next_of b'=' str b ≡ b + length p.key
  finds_key h = omega (arith, ap (first_of b'=') e, first_of-append b'=' p.key (b'=' ∷ x) h)

  finds_value :
      (y : Bytes)
      → x ≡ p.value ++ y
      → Lacks b'&' p.value
      → next_of b'&' str (b + length p.key)
        ≡ b + length p.key + 1 + length p.value + first_of b'&' y
  finds_value y ex h = omega (
    arith,
    ap (first_of b'&') at_key_end,
    ap (first_of b'&') ex,
    first_of-append b'&' p.value y h,
  )

  pub at_val_end :
      (y : Bytes) → x ≡ p.value ++ y → drop (b + length p.key + 1 + length p.value) str ≡ y
  at_val_end y ex =
      ap (λ n. drop n str) {x = b + length p.key + 1 + length p.value}
        {y = b + length p.key + (1 + length p.value)} (omega arith)
      ∙ (sym (drop-drop (1 + length p.value) (b + length p.key) str)
          ∙ (ap (drop (1 + length p.value)) (at_key_end ∙ ap (◌∷◌ b'=') ex)
              ∙ drop_one_more p.value y))
    where
      drop_one_more : (u w : Bytes) → drop (1 + length u) (b'=' ∷ (u ++ w)) ≡ w
      drop_one_more u w =
          drop_of_eq {m = 1 + length u} {n = suc (length u)} (b'=' ∷ (u ++ w)) (omega arith)
          ∙ drop_all u w

pub encode-append :
    (p q : Field) (ps : List Field) (tail : Bytes)
    → encode (p ∷ q ∷ ps) ++ tail ≡ p.key ++ b'=' ∷ (p.value ++ b'&' ∷ (encode (q ∷ ps) ++ tail))
encode-append p q ps tail =
    append_assoc p.key (b'=' ∷ (p.value ++ b'&' ∷ encode (q ∷ ps))) tail
    ∙ ap (λ x. p.key ++ b'=' ∷ x) (append_assoc p.value (b'&' ∷ encode (q ∷ ps)) tail)

-- A loop that stores both ends of a field and goes on behind its value, and that ends with the last
-- field, finds all ends of a form.
module _ (str : Bytes) (len : ℕ) (loop : ℕ → ℕ → List ℕ → Exec (List ℕ))
    (next_field : (fuel i : ℕ) (off : List ℕ) (key_end val_end : ℕ)
      → next_of b'=' str i ≡ key_end
      → key_end ≤ val_end
      → val_end < len
      → next_of b'&' str key_end ≡ val_end
      → length off + 2 ≤ 32
      → loop (suc fuel) i off ≡ loop fuel val_end (off ++ key_end ∷ val_end ∷ []))
    (last : (fuel i : ℕ) (off : List ℕ) (key_end : ℕ)
      → next_of b'=' str i ≡ key_end
      → key_end < len
      → len ≤ next_of b'&' str key_end
      → length off + 2 ≤ 32
      → loop (suc fuel) i off ≡ done (off ++ key_end ∷ len ∷ [])) where
  pub loop_lem :
      (p : Field) (ps : List Field) (fuel i b : ℕ) (off : List ℕ) (tail : Bytes)
      → drop b str ≡ encode (p ∷ ps) ++ tail
      → b + length (encode (p ∷ ps)) ≡ len
      → next_of b'=' str i ≡ next_of b'=' str b
      → IsForm (p ∷ ps)
      → length off + 2 * length (p ∷ ps) ≤ 32
      → length ps < fuel
      → loop fuel i off ≡ done (off ++ ends_from b (p ∷ ps))
  loop_lem p ps zero i b off tail e le ei form short more = absurd (omega arith)
  loop_lem p [] (suc fuel) i b off tail e le ei form short more =
      let e' : drop b str ≡ p.key ++ b'=' ∷ (p.value ++ tail) =
        e ∙ append_assoc p.key (b'=' ∷ p.value) tail in
      let key_end = b + length p.key in
      let val_end = key_end + 1 + length p.value in
      let whole : val_end ≡ len = omega (arith, le, length-append p.key (b'=' ∷ p.value)) in
      last fuel i off key_end (ei ∙ finds_key str p b (p.value ++ tail) e' form.0) (omega arith)
        (omega (arith, finds_value str p b (p.value ++ tail) e' tail refl form.1)) (omega arith)
      ∙ ap (λ v. done (off ++ key_end ∷ v ∷ [])) (sym whole)
  loop_lem p (q ∷ ps) (suc fuel) i b off tail e le ei form short more =
      let rest = encode (q ∷ ps) ++ tail in
      let x = p.value ++ b'&' ∷ rest in
      let e' : drop b str ≡ p.key ++ b'=' ∷ x = e ∙ encode-append p q ps tail in
      let key_end = b + length p.key in
      let val_end = key_end + 1 + length p.value in
      let long : length (encode (p ∷ q ∷ ps))
          ≡ length p.key + (1 + (length p.value + (1 + length (encode (q ∷ ps))))) =
        omega (
          arith,
          length-append p.key (b'=' ∷ (p.value ++ b'&' ∷ encode (q ∷ ps))),
          length-append p.value (b'&' ∷ encode (q ∷ ps)),
        ) in
      let inside : val_end < len = omega (arith, le, long) in
      let after = at_val_end str p b x e' (b'&' ∷ rest) refl in
      let behind : drop (val_end + 1) str ≡ rest =
        sym (drop-drop 1 val_end str) ∙ ap (drop 1) after in
      next_field fuel i off key_end val_end (ei ∙ finds_key str p b x e' form.0) (omega arith)
        inside (omega (arith, finds_value str p b x e' (b'&' ∷ rest) refl form.1)) (omega arith)
      ∙ (loop_lem q ps fuel val_end (val_end + 1) (off ++ key_end ∷ val_end ∷ []) tail behind
            (omega (arith, le, long))
            (omega (arith, ap (first_of b'=') after, ap (first_of b'=') behind)) form.2
            (omega (arith, length-append off (key_end ∷ val_end ∷ []))) (omega arith)
          ∙ ap done (append_assoc off (key_end ∷ val_end ∷ []) (ends_from (val_end + 1) (q ∷ ps))))
