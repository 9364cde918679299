-- ===== src/Codec.antt =====
-- src/utils/utils.c, the byte codecs: lengths in network order, request ids in the order of the host
-- (x86-64, low byte first), small decimal numbers. An int is its 32-bit pattern, an int64_t its 64-bit
-- pattern, and a char its byte.
pub mod FourBytes
pub mod EightBytes
pub mod Decimal
pub mod Increase
pub mod Floats
mod Tests
use Prim.Native.Nat.{bit_or}
use service_mesh_agent.Base.{
  ℕ, zero, suc, ◌+◌, ◌-◌, ◌*◌, ◌/◌, ◌%◌, ◌^◌, List, [], ◌∷◌, ltb, leb, ◌==◌, if◌then◌else◌, Bytes,
  ◌||◌, ◌&&◌, Bool, Exec, done, fault, get_elem?, must, ◌>>=◌,
}
use service_mesh_agent.Base.Words.{u8, u32, u64, ◌<<<◌, ◌>>>◌}

-- The bytes are taken as unsigned, `& 0xff`; the sign that the first shift may bring into the upper
-- half of `len` is dropped by the return as an int.
unfoldable pub four_char_to_int : ℕ → ℕ → ℕ → ℕ → ℕ
four_char_to_int b₀ b₁ b₂ b₃ =
    bit_or (bit_or (bit_or (bit_or 0 (u8 b₀ <<< 24)) (u8 b₁ <<< 16)) (u8 b₂ <<< 8)) (u8 b₃)

-- The four bytes at `off`.
unfoldable pub read_int : Bytes → ℕ → Exec ℕ
read_int buf off = do
  b₀ ← must (get_elem? buf off)
  b₁ ← must (get_elem? buf (off + 1))
  b₂ ← must (get_elem? buf (off + 2))
  b₃ ← must (get_elem? buf (off + 3))
  done (four_char_to_int b₀ b₁ b₂ b₃)

abbrev pub int_to_four_char : ℕ → Bytes
int_to_four_char integer =
    u8 (integer >>> 24) ∷ u8 (integer >>> 16) ∷ u8 (integer >>> 8) ∷ u8 (integer >>> 0) ∷ []

-- `n` bytes of an integer as they lie in memory.
unfoldable pub le_bytes : ℕ → ℕ → Bytes
le_bytes zero integer = []
le_bytes (suc n) integer = u8 integer ∷ le_bytes n (integer / 2 ^ 8)

unfoldable pub long_to_8bytes : ℕ → Bytes
unfolding le_bytes
long_to_8bytes integer = le_bytes 8 integer

-- The integer that lies in memory as these bytes.
unfoldable pub le_value : Bytes → ℕ
le_value [] = 0
le_value (b ∷ bs) = b + 2 ^ 8 * le_value bs

unfoldable pub bytes8_to_long : Bytes → ℕ
bytes8_to_long bytes = le_value bytes

-- Is an int, as a pattern, negative?
abbrev pub is_negative : ℕ → Bool
is_negative w = leb (2 ^ 31) w

-- One or two chars; the digits of a number from 100 on do not fit them.
unfoldable pub int_to_string : ℕ → Bytes
int_to_string num =
    if is_negative num || ltb num 10
    then u8 (num + b'0') ∷ []
    else (let new_val = num / 10 in u8 (new_val + b'0') ∷ u8 (num - new_val * 10 + b'0') ∷ [])

-- The loop stops at the first byte that does not turn to 0.
pub increase_long_by_one : Bytes → Bytes
increase_long_by_one [] = []
increase_long_by_one (b ∷ bs) =
    let rest = increase_long_by_one bs in
    if u8 (b + 1) == 0 then u8 (b + 1) ∷ rest else u8 (b + 1) ∷ bs

-- The rounds of the second loop. `room` chars of `buffer` lie in front of `p`, the text so far.
unfoldable pub digits_before : ℕ → ℕ → Bytes → Exec Bytes
digits_before zero val p = if val == 0 then done p else fault
digits_before (suc room) val p =
    let new_val = val / 10 in
    let rest = digits_before room new_val (u8 (b'0' + u8 (val - new_val * 10)) ∷ p) in
    if val == 0 then done p else rest

-- What is written to `dst`, its final 0 left out. `val` is the 64-bit pattern of a long; the flag is
-- radix < 0.
unfoldable pub int10_to_str : ℕ → Bool → Exec Bytes
unfolding digits_before
int10_to_str val is_signed =
    let minus = is_signed && leb (2 ^ 63) val in
    let uval = if minus then u64 (2 ^ 64 - val) else val in
    let new_val = uval / 10 in
    digits_before 63 new_val (u8 (b'0' + u8 (uval - new_val * 10)) ∷ []) >>= λ p.
    done (if minus then b'-' ∷ p else p)
