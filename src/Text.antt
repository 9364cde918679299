-- ===== src/Text.antt =====
-- What src/ uses of the C library on strings: strtok, atoi, and %d in printf.
use service_mesh_agent.Base.{
  ℕ, zero, suc, ◌+◌, ◌*◌, ◌-◌, ◌/◌, ◌%◌, ◌^◌, List, [], ◌∷◌, ◌++◌, ltb, leb, ◌==◌, ◌&&◌,
  if◌then◌else◌, Bytes,
}
use service_mesh_agent.Base.Words.{u32}

-- A first token is put before the others, if it is not empty.
abbrev pub cons_token : Bytes → List Bytes → List Bytes
cons_token [] ts = ts
cons_token (c ∷ cs) ts = (c ∷ cs) ∷ ts

-- The tokens that strtok returns in turn: the runs between delimiters that are not empty.
unfoldable pub tokens_from : ℕ → Bytes → Bytes → List Bytes
tokens_from delim token [] = cons_token token []
tokens_from delim token (c ∷ cs) =
    let here = cons_token token (tokens_from delim [] cs) in
    let later = tokens_from delim (token ++ c ∷ []) cs in if c == delim then here else later

unfoldable pub tokens : ℕ → Bytes → List Bytes
tokens delim s = tokens_from delim [] s

-- The digits at the front, after the number `acc`. An overflow is undefined in C and wraps here.
unfoldable pub digits : ℕ → Bytes → ℕ
digits acc [] = acc
digits acc (c ∷ cs) =
    let rest = digits (u32 (acc * 10 + (c - b'0'))) cs in
    if leb b'0' c && leb c b'9' then rest else acc

-- atoi, which is strtol to base 10 as an int: spaces, a sign, digits.
unfoldable pub atoi : Bytes → ℕ
unfolding digits
atoi [] = 0
atoi (c ∷ cs) =
    let skipped = atoi cs in
    if c == b' '
    then skipped
    else (if c == b'-' then u32 (2 ^ 32 - digits 0 cs) else digits 0 (c ∷ cs))

-- %d of an int that is not negative; ten digits are enough for each.
unfoldable pub decimal : ℕ → ℕ → Bytes
decimal zero n = []
decimal (suc fuel) n =
    let rest = decimal fuel (n / 10) in
    if ltb n 10 then (n + b'0') ∷ [] else rest ++ (n % 10 + b'0') ∷ []
