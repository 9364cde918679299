-- ===== src/Codec/FourBytes.antt =====
-- Lengths as four bytes in network order, there and back.
use service_mesh_agent.Base.{
  ℕ, ◌+◌, ◌*◌, ◌^◌, ◌≤◌, ◌<◌, ◌≡◌, refl, ap, ◌∙◌, ◌++◌, arith, Bytes, done, must, ◌>>=◌, length,
  get_elem?_in, get_elem?_behind, get_elem?_before,
}
use service_mesh_agent.Base.Words.{u8, ◌<<<◌, zero-bit_or, bit_or_sum}
use service_mesh_agent.Codec.{four_char_to_int, read_int, int_to_four_char}

-- Four bytes make a number in base 256, the first byte the highest.
pub four_char_to_int_sum :
    (b₀ b₁ b₂ b₃ : ℕ)
    → four_char_to_int b₀ b₁ b₂ b₃ ≡ u8 b₀ * 2 ^ 24 + u8 b₁ * 2 ^ 16 + u8 b₂ * 2 ^ 8 + u8 b₃
unfolding four_char_to_int
four_char_to_int_sum b₀ b₁ b₂ b₃ = rw (
  zero-bit_or (u8 b₀ <<< 24),
  bit_or_sum 24 (u8 b₀ <<< 24) (u8 b₀) (u8 b₁ <<< 16) refl (omega arith),
  bit_or_sum 16 (u8 b₀ <<< 24 + u8 b₁ <<< 16) (u8 b₀ * 2 ^ 8 + u8 b₁) (u8 b₂ <<< 8) (omega arith)
      (omega arith),
  bit_or_sum 8 (u8 b₀ <<< 24 + u8 b₁ <<< 16 + u8 b₂ <<< 8) (u8 b₀ * 2 ^ 16 + u8 b₁ * 2 ^ 8 + u8 b₂)
      (u8 b₃) (omega arith) (omega arith),
)

pub four_char_to_int-lt : (b₀ b₁ b₂ b₃ : ℕ) → four_char_to_int b₀ b₁ b₂ b₃ < 2 ^ 32
four_char_to_int-lt b₀ b₁ b₂ b₃ = omega (arith, four_char_to_int_sum b₀ b₁ b₂ b₃)

-- What int_to_four_char stores at an address four_char_to_int reads back there, for every int.
pub read_int-int_to_four_char :
    (p rest : Bytes) (n : ℕ)
    → n < 2 ^ 32
    → read_int (p ++ (int_to_four_char n ++ rest)) (length p) ≡ done n
unfolding read_int
read_int-int_to_four_char p rest n h =
    rw
      (
        get_elem?_behind p bs (length p) 0 (omega arith),
        get_elem?_behind p bs (length p + 1) 1 refl,
        get_elem?_behind p bs (length p + 2) 2 refl,
        get_elem?_behind p bs (length p + 3) 3 refl,
        must,
        ◌>>=◌,
      )
      (ap done (four_char_to_int_sum _ _ _ _ ∙ omega arith))
  where
    bs : Bytes
    bs = int_to_four_char n ++ rest

-- There are four bytes to read.
pub read_int_runs :
    (buf : Bytes) (off : ℕ)
    → off + 4 ≤ length buf
    → (n : ℕ) × (read_int buf off ≡ done n) × (n < 2 ^ 32)
unfolding read_int
read_int_runs buf off h =
    let (b₀, e₀) = get_elem?_in buf off (omega arith) in
    let (b₁, e₁) = get_elem?_in buf (off + 1) (omega arith) in
    let (b₂, e₂) = get_elem?_in buf (off + 2) (omega arith) in
    let (b₃, e₃) = get_elem?_in buf (off + 3) (omega arith) in
    (
      four_char_to_int b₀ b₁ b₂ b₃,
      rw (e₀, must, ◌>>=◌, e₁, e₂, e₃),
      four_char_to_int-lt b₀ b₁ b₂ b₃,
    )

-- It reads no further.
pub read_int_prefix :
    (u x : Bytes) (off : ℕ) → off + 4 ≤ length u → read_int (u ++ x) off ≡ read_int u off
unfolding read_int
read_int_prefix u x off h = rw (
  get_elem?_before u x off (omega arith),
  get_elem?_before u x (off + 1) (omega arith),
  get_elem?_before u x (off + 2) (omega arith),
  get_elem?_before u x (off + 3) (omega arith),
)
