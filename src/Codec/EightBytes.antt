-- ===== src/Codec/EightBytes.antt =====
-- Request ids as the eight bytes that they are in memory, there and back.
use service_mesh_agent.Base.{
  ℕ, zero, suc, ◌+◌, ◌*◌, ◌/◌, ◌^◌, ◌<◌, ◌≡◌, refl, ap, subst, [], ◌∷◌, arith, Bytes, length,
  IsBytes,
}
use service_mesh_agent.Base.Words.{u8}
use service_mesh_agent.Codec.{le_bytes, le_value, long_to_8bytes, bytes8_to_long}

pub length-le_bytes : (n x : ℕ) → length (le_bytes n x) ≡ n
unfolding le_bytes
length-le_bytes zero x = refl
length-le_bytes (suc n) x = ap suc (length-le_bytes n (x / 2 ^ 8))

-- `n` bytes hold a number below 2 ^ (8 n), given here as the product of `n` bytes' ranges.
abbrev pub range : ℕ → ℕ
range zero = 1
range (suc n) = 2 ^ 8 * range n

pub le_value-le_bytes : (n x : ℕ) → x < range n → le_value (le_bytes n x) ≡ x
unfolding le_bytes le_value
le_value-le_bytes zero x h = omega arith
le_value-le_bytes (suc n) x h = omega (arith, le_value-le_bytes n (x / 2 ^ 8) (omega arith))

le_bytes-le_value : (bs : Bytes) → IsBytes bs → le_bytes (length bs) (le_value bs) ≡ bs
unfolding le_bytes le_value
le_bytes-le_value [] h = refl
le_bytes-le_value (b ∷ bs) h =
    let low : u8 (b + 2 ^ 8 * le_value bs) ≡ b = omega arith in
    let high : (b + 2 ^ 8 * le_value bs) / 2 ^ 8 ≡ le_value bs = omega arith in
    rw (low, high, le_bytes-le_value bs h.1)

pub le_value-lt : (bs : Bytes) → IsBytes bs → le_value bs < range (length bs)
unfolding le_value
le_value-lt [] h = omega arith
le_value-lt (b ∷ bs) h = omega (arith, le_value-lt bs h.1)

-- A 64-bit number is stored in eight bytes and read back as itself, and eight bytes that are read as
-- a number are stored back as themselves.
pub long_8bytes_roundtrip :
    (x : ℕ) (bs : Bytes)
    → x < 2 ^ 64
    → IsBytes bs
    → length bs ≡ 8
    → (length (long_to_8bytes x) ≡ 8)
      × (bytes8_to_long (long_to_8bytes x) ≡ x)
      × (bytes8_to_long bs < 2 ^ 64)
      × (long_to_8bytes (bytes8_to_long bs) ≡ bs)
unfolding long_to_8bytes bytes8_to_long
long_8bytes_roundtrip x bs lt h e = (
  length-le_bytes 8 x,
  le_value-le_bytes 8 x lt,
  subst (λ n. le_value bs < range n) e (le_value-lt bs h),
  subst (λ n. le_bytes n (le_value bs) ≡ bs) e (le_bytes-le_value bs h),
)

pub bytes8_to_long-long_to_8bytes : (x : ℕ) → x < 2 ^ 64 → bytes8_to_long (long_to_8bytes x) ≡ x
unfolding long_to_8bytes bytes8_to_long
bytes8_to_long-long_to_8bytes x lt = le_value-le_bytes 8 x lt
