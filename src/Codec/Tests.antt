-- ===== src/Codec/Tests.antt =====
-- The codecs on small inputs.
use service_mesh_agent.Base.{
  ◌≡◌, ◌<◌, ◌^◌, ◌≤◌, refl, [], ◌∷◌, ◌++◌, ◌⊎◌, done, arith, length, Bytes, IsBytes, true, leb,
  ◌&&◌, ◌-◌, codes,
}
use service_mesh_agent.Codec.{
  four_char_to_int, read_int, long_to_8bytes, bytes8_to_long, int_to_string, increase_long_by_one,
  le_value, int10_to_str,
}
use service_mesh_agent.Codec.FourBytes.{read_int-int_to_four_char}
use service_mesh_agent.Codec.EightBytes.{long_8bytes_roundtrip}
use service_mesh_agent.Codec.Increase.{increase_long_by_one_lem}
use service_mesh_agent.Codec.Decimal.{
  read_decimal, int_to_string-read_decimal, has_minus, read_long, int10_to_str-read_long,
}

read_int_runs_299 : read_int (0 ∷ 0 ∷ 1 ∷ 43 ∷ 9 ∷ []) 0 ≡ done 299
unfolding read_int four_char_to_int
read_int_runs_299 = refl

two_digits : int_to_string 42 ≡ b'4' ∷ b'2' ∷ []
unfolding int_to_string
two_digits = refl

carry : increase_long_by_one (255 ∷ 255 ∷ 0 ∷ 7 ∷ []) ≡ 0 ∷ 0 ∷ 1 ∷ 7 ∷ []
unfolding increase_long_by_one
carry = refl

read_int-int_to_four_char_example : read_int (7 ∷ 0 ∷ 0 ∷ 1 ∷ 43 ∷ 9 ∷ []) 1 ≡ done 299
read_int-int_to_four_char_example = read_int-int_to_four_char (7 ∷ []) (9 ∷ []) 299 (omega arith)

abbrev eight : Bytes
eight = 255 ∷ 255 ∷ 0 ∷ 0 ∷ 0 ∷ 0 ∷ 0 ∷ 0 ∷ []

eight-IsBytes : IsBytes eight
eight-IsBytes = omega arith

increase_long_by_one_lem_example :
    (bytes8_to_long (increase_long_by_one eight) ≡ 65536)
    × IsBytes (increase_long_by_one eight)
    × (length (increase_long_by_one eight) ≡ 8)
unfolding bytes8_to_long le_value
increase_long_by_one_lem_example = increase_long_by_one_lem eight eight-IsBytes refl

int_to_string-read_decimal_example :
    ((42 < 100)
      × (length (int_to_string 42) ≤ 2)
      × (read_decimal 0 (int_to_string 42 ++ b' ' ∷ []) ≡ 42))
    ⊎ ((100 ≤ 42) × (read_decimal 0 (int_to_string 42 ++ b' ' ∷ []) ≡ 0))
int_to_string-read_decimal_example = int_to_string-read_decimal 42 (omega arith)

long_8bytes_roundtrip_example :
    (length (long_to_8bytes 77) ≡ 8)
    × (bytes8_to_long (long_to_8bytes 77) ≡ 77)
    × (bytes8_to_long eight < 2 ^ 64)
    × (long_to_8bytes (bytes8_to_long eight) ≡ eight)
long_8bytes_roundtrip_example = long_8bytes_roundtrip 77 eight (omega arith) eight-IsBytes refl

minus_42 : int10_to_str (2 ^ 64 - 42) true ≡ done (codes "-42")
unfolding int10_to_str
minus_42 = refl

int10_to_str-read_long_example :
    (s : Bytes) × (int10_to_str (2 ^ 64 - 42) true ≡ done s)
    × (read_long s ≡ 2 ^ 64 - 42)
    × (length s ≤ 20)
    × (has_minus s ≡ (true && leb (2 ^ 63) (2 ^ 64 - 42)))
int10_to_str-read_long_example = int10_to_str-read_long (2 ^ 64 - 42) true (omega arith)
