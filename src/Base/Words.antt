-- ===== src/Base/Words.antt =====
-- Machine words as bit patterns: a C integer of w bits is a number below 2 ^ w, negative values in
-- two's complement. Casts, shifts, and `|` of disjoint fields as a sum.
use Prim.Native.Nat.{ℕ, zero, suc, ◌+◌, ◌-◌, ◌*◌, ◌/◌, ◌%◌, ◌^◌, ◌≤◌, ◌<◌, max}
use Prim.Native.Nat.{bit_or, digits, bit_or-bitwise}
use mathlib.Core.Path.{◌≡◌, refl, ap}
use native.Mathlib.Nat.{pow-suc}
use native.Mathlib.Omega.{arith}
use service_mesh_agent.Base.Compare.{ltb, if◌then◌else◌, lt→ltb}

abbrev pub u8 : ℕ → ℕ
u8 n = n % 2 ^ 8

abbrev pub u16 : ℕ → ℕ
u16 n = n % 2 ^ 16

abbrev pub u32 : ℕ → ℕ
u32 n = n % 2 ^ 32

abbrev pub u64 : ℕ → ℕ
u64 n = n % 2 ^ 64

-- int to size_t or to int64_t: the sign is extended.
abbrev pub int_to_size : ℕ → ℕ
int_to_size w = if ltb w (2 ^ 31) then w else w + (2 ^ 64 - 2 ^ 32)

infixl 75 ◌<<<◌ ◌>>>◌
abbrev pub ◌<<<◌ : ℕ → ℕ → ℕ
x <<< k = x * 2 ^ k

abbrev pub ◌>>>◌ : ℕ → ℕ → ℕ
x >>> k = x / 2 ^ k

or_digits : ℕ → ℕ → ℕ → ℕ
or_digits n a b = digits (λ y. y) max n a b

or_digits_fuel : (n m a b : ℕ) → a ≤ n → a ≤ m → or_digits n a b ≡ or_digits m a b
unfolding or_digits
or_digits_fuel zero zero a b p q = refl
or_digits_fuel zero (suc m) zero b p q = refl
or_digits_fuel zero (suc m) (suc a) b p q = absurd (omega arith)
or_digits_fuel (suc n) zero zero b p q = refl
or_digits_fuel (suc n) zero (suc a) b p q = absurd (omega arith)
or_digits_fuel (suc n) (suc m) zero b p q = refl
or_digits_fuel (suc n) (suc m) (suc a) b p q =
    rw (or_digits_fuel n m (suc a / 2) (b / 2) (omega arith) (omega arith))

-- The lowest binary digit of `a | b`.
or_digit : (a b : ℕ) → bit_or a b ≡ bit_or (a / 2) (b / 2) * 2 + max (a % 2) (b % 2)
unfolding or_digits
or_digit zero b = omega (arith, bit_or-bitwise 0 b, bit_or-bitwise 0 (b / 2))
or_digit (suc a) b = omega (
  arith,
  bit_or-bitwise (suc a) b,
  bit_or-bitwise (suc a / 2) (b / 2),
  or_digits_fuel a (suc a / 2) (suc a / 2) (b / 2) (omega arith) (omega arith),
)

bit_or-zero_fuel : (n a : ℕ) → a ≤ n → bit_or a 0 ≡ a
bit_or-zero_fuel n zero h = refl
bit_or-zero_fuel zero (suc a) h = absurd (omega arith)
bit_or-zero_fuel (suc n) (suc a) h =
    omega (arith, or_digit (suc a) 0, bit_or-zero_fuel n (suc a / 2) (omega arith))

-- The high field lies on a multiple of 2 ^ k and the low one below it.
pub bit_or_disjoint : (k q r : ℕ) → r < 2 ^ k → bit_or (q <<< k) r ≡ q * 2 ^ k + r
bit_or_disjoint zero q r h = ground (arith, bit_or-zero_fuel q q)
bit_or_disjoint (suc k) q r h =
    let twice : q * 2 ^ suc k ≡ 2 * (q * 2 ^ k) =
      omega (arith, ap (λ (t : ℕ). q * t) (pow-suc 2 k)) in
    ground (
      arith,
      or_digit (q * 2 ^ suc k) r,
      twice,
      pow-suc 2 k,
      bit_or_disjoint k q (r / 2) (omega arith),
    )

pub zero-bit_or : (b : ℕ) → bit_or 0 b ≡ b
zero-bit_or b = bit_or-bitwise 0 b

-- The same for a high part that is written as a sum.
pub bit_or_sum : (k h q r : ℕ) → h ≡ q * 2 ^ k → r < 2 ^ k → bit_or h r ≡ h + r
bit_or_sum k h q r e lt = rw e (bit_or_disjoint k q r lt)

-- A sum of ints that stays positive is itself as a size_t.
pub int_to_size_small : (n : ℕ) → n < 2 ^ 31 → int_to_size (u32 n) ≡ n
int_to_size_small n h = let same : u32 n ≡ n = omega arith in rw (same, lt→ltb n (2 ^ 31) h) refl
