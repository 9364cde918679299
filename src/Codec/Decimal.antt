-- ===== src/Codec/Decimal.antt =====
-- The decimal numbers: int_to_string, the two digits that a Content-Length has room for, and int10_to_str.
use service_mesh_agent.Base.{
  eq→==, ne→not-==, le→leb, lt→not-leb, ℕ, ◌+◌, ◌*◌, ◌-◌, ◌≤◌, ◌<◌, ◌≡◌, ◌⊎◌, inl, inr, [], ◌∷◌,
  ◌++◌, arith, Bytes, length, Bool, if◌then◌else◌, leb, ◌&&◌, ◌==◌, ◌/◌, ◌^◌, zero, suc, done,
  false, true, sym, ap, ◌∙◌, Exec, refl,
}
use native.Mathlib.Decide.{dec_lt}
use native.Mathlib.Nat.{pow-suc}
use service_mesh_agent.Base.Words.{u8, u64}
use service_mesh_agent.Codec.{int_to_string, digits_before, int10_to_str}

abbrev pub is_digit : ℕ → Bool
is_digit c = leb b'0' c && leb c b'9'

-- The number that a field of digits stands for, read as far as the digits go. Blanks end the number.
pub read_decimal : ℕ → Bytes → ℕ
read_decimal acc [] = acc
read_decimal acc (c ∷ cs) =
    let rest = read_decimal (acc * 10 + (c - b'0')) cs in if is_digit c then rest else acc

-- A number below 100, in the two blanks of the response template, is read back as itself. From 100 to
-- 2079 the first char that is written is no digit, so the field reads as 0.
pub int_to_string-read_decimal :
    (num : ℕ)
    → num < 2080
    → ((num < 100)
        × (length (int_to_string num) ≤ 2)
        × (read_decimal 0 (int_to_string num ++ b' ' ∷ []) ≡ num))
      ⊎ ((100 ≤ num) × (read_decimal 0 (int_to_string num ++ b' ' ∷ []) ≡ 0))
unfolding int_to_string read_decimal
int_to_string-read_decimal num k = elim (dec_lt num 100) [
  | yes h ↦ inl (ground arith)
  | no h ↦ inr (ground arith)
]

abbrev pub has_minus : Bytes → Bool
has_minus [] = false
has_minus (c ∷ cs) = c == b'-'

-- The 64-bit pattern that a text with or without a minus stands for.
abbrev pub read_long : Bytes → ℕ
read_long [] = 0
read_long (c ∷ cs) = if c == b'-' then u64 (2 ^ 64 - read_decimal 0 cs) else read_decimal 0 (c ∷ cs)

read_decimal-digit :
    (q c : ℕ) (p : Bytes)
    → c ≡ u8 (b'0' + u8 (q - q / 10 * 10))
    → read_decimal (q / 10) (c ∷ p) ≡ read_decimal q p
unfolding read_decimal
read_decimal-digit q c p e =
    let digit : is_digit c ≡ true = ground arith in
    let value : q / 10 * 10 + (c - b'0') ≡ q = omega arith in rw (digit, value) refl

digits_before_zero : (room : ℕ) (p : Bytes) → digits_before room 0 p ≡ done p
unfolding digits_before
digits_before_zero zero p = refl
digits_before_zero (suc room) p = refl

digits_before-read_decimal :
    (n room q : ℕ) (p : Bytes)
    → q < 10 ^ n
    → n ≤ room
    → has_minus p ≡ false
    → (s : Bytes) × (digits_before room q p ≡ done s)
      × (read_decimal 0 s ≡ read_decimal q p)
      × (length s ≤ n + length p)
      × (has_minus s ≡ false)
unfolding digits_before
digits_before-read_decimal zero room q p k l m =
    let q≡0 : q ≡ 0 = omega arith in
    (
      p,
      ap (λ x. digits_before room x p) q≡0 ∙ digits_before_zero room p,
      ap (λ x. read_decimal x p) (sym q≡0),
      omega arith,
      m,
    )
digits_before-read_decimal (suc n) zero q p k l m = absurd (omega arith)
digits_before-read_decimal (suc n) (suc room) q p k l m = elim (dec_lt 0 q) [
  | no h ↦
      let q≡0 : q ≡ 0 = omega arith in
      (
        p,
        ap (λ b. if b then done p else rest) (eq→== q 0 q≡0),
        ap (λ x. read_decimal x p) (sym q≡0),
        omega arith,
        m,
      )
  | yes h ↦
      let power = pow-suc 10 n in
      let (s, runs, reads, len, sign) =
        digits_before-read_decimal n room (q / 10) (c ∷ p) (omega arith) (omega arith)
          (ground arith) in
      (
        s,
        ap (λ b. if b then done p else rest) (ne→not-== q 0 (omega arith)) ∙ runs,
        reads ∙ read_decimal-digit q c p refl,
        omega arith,
        sign,
      )
]
  where
    c : ℕ
    c = u8 (b'0' + u8 (q - q / 10 * 10))

    rest : Exec Bytes
    rest = digits_before room (q / 10) (c ∷ p)

digits_of-read_decimal :
    (n q : ℕ)
    → q / 10 < 10 ^ n
    → n ≤ 63
    → (s : Bytes) × (digits_before 63 (q / 10) (u8 (b'0' + u8 (q - q / 10 * 10)) ∷ []) ≡ done s)
      × (read_decimal 0 s ≡ q)
      × (length s ≤ suc n)
      × (has_minus s ≡ false)
unfolding read_decimal
digits_of-read_decimal n q k l =
    let (s, runs, reads, len, sign) =
      digits_before-read_decimal n 63 (q / 10) (u8 (b'0' + u8 (q - q / 10 * 10)) ∷ []) k l
        (ground arith) in
    (
      s,
      runs,
      reads ∙ read_decimal-digit q (u8 (b'0' + u8 (q - q / 10 * 10))) [] refl,
      omega arith,
      sign,
    )

read_long_unsigned : (s : Bytes) → has_minus s ≡ false → read_long s ≡ read_decimal 0 s
unfolding read_decimal
read_long_unsigned [] h = refl
read_long_unsigned (c ∷ s) h = rw (h) refl

-- Every long, signed or not, fits the buffer. What is written has at most 20 chars, starts with a minus
-- exactly when the number is taken as signed and is negative, and reads back as the number.
pub int10_to_str-read_long :
    (val : ℕ) (is_signed : Bool)
    → val < 2 ^ 64
    → (s : Bytes) × (int10_to_str val is_signed ≡ done s)
      × (read_long s ≡ val)
      × (length s ≤ 20)
      × (has_minus s ≡ (is_signed && leb (2 ^ 63) val))
unfolding int10_to_str
int10_to_str-read_long val false k =
    let (s, runs, reads, len, sign) = digits_of-read_decimal 19 val (omega arith) (omega arith) in
    (s, rw (runs) refl, read_long_unsigned s sign ∙ reads, len, sign)
int10_to_str-read_long val true k = elim (dec_lt val (2 ^ 63)) [
  | yes h ↦
      let (s, runs, reads, len, sign) = digits_of-read_decimal 19 val (omega arith) (omega arith) in
      rw (lt→not-leb (2 ^ 63) val h)
        (s, rw (runs) refl, read_long_unsigned s sign ∙ reads, len, sign)
  | no h ↦
      let (s, runs, reads, len, sign) =
        digits_of-read_decimal 18 (u64 (2 ^ 64 - val)) (omega arith) (omega arith) in
      rw (le→leb (2 ^ 63) val (omega arith))
        (b'-' ∷ s, rw (runs) refl, rw (reads) (omega arith), omega arith, refl)
]
