-- ===== src/Tokenizer/Simd.antt =====
-- src/utils/tokenizer.c, the search for a byte. A vector of sixteen bytes is compared with the byte
-- at once; the number of the first equal one is the number of trailing zeros of a mask of bits.
use service_mesh_agent.Base.{
  ℕ, zero, suc, ◌+◌, ◌*◌, ◌/◌, ◌%◌, List, [], ◌∷◌, ltb, leb, ◌==◌, if◌then◌else◌, Bytes, ◌||◌, Exec,
  done, no_fuel, get_elem?, must, ◌>>=◌, slice,
}
use service_mesh_agent.Base.Words.{u8, ◌>>>◌}

-- _mm_movemask_epi8 (_mm_cmpeq_epi8 (...)): bit k is set where byte k is the one looked for.
unfoldable pub match_mask : Bytes → ℕ → ℕ
match_mask [] c = 0
match_mask (b ∷ bs) c = (if b == c then 1 else 0) + 2 * match_mask bs c

-- The masks 0x1, 0x3, ..., 0xff, each plus one: `h & mask` is the rest by that power of two.
abbrev pub inspected : List ℕ
inspected = 2 ∷ 4 ∷ 8 ∷ 16 ∷ 32 ∷ 64 ∷ 128 ∷ 256 ∷ []

-- In how many lanes `h & mask` is 0.
unfoldable pub zero_lanes : List ℕ → ℕ → ℕ
zero_lanes [] h = 0
zero_lanes (m ∷ ms) h = (if h % m == 0 then 1 else 0) + zero_lanes ms h

-- The lanes are two bytes wide, so that the mask of bytes has two bits for each.
unfoldable pub tzcnt_u32_using_popcnt_cmpgt : ℕ → ℕ
unfolding zero_lanes
tzcnt_u32_using_popcnt_cmpgt x =
    if u8 x == 0
    then 8 + (2 * zero_lanes inspected (u8 (x >>> 8))) >>> 1
    else (2 * zero_lanes inspected (u8 x)) >>> 1

-- The processor's count, __tzcnt_u32.
unfoldable pub trailing_zeros : ℕ → ℕ → ℕ
trailing_zeros zero x = 0
trailing_zeros (suc n) x = let rest = trailing_zeros n (x / 2) in if x % 2 == 1 then 0 else suc rest

unfoldable pub tzcnt_u32 : ℕ → ℕ
unfolding trailing_zeros
tzcnt_u32 x = trailing_zeros 32 x

-- The instruction sets that the preprocessor tests for; the build asks for sse42.
pub data Build : Type 0 where
  bmi sse42 plain : Build

-- How far a step goes: to the byte, or over the sixteen.
unfoldable pub advance : (ℕ → ℕ) → Bytes → ℕ → ℕ → Exec ℕ
unfolding match_mask
advance tzcnt str i c = do
  inspected_ele ← slice str i 16
  let mask = match_mask inspected_ele c
  done (if mask == 0 then 16 else tzcnt mask)

-- while (true) { ... if (advance < 16) break; }
unfoldable pub find : ℕ → (ℕ → ℕ) → Bytes → ℕ → ℕ → Exec ℕ
find zero tzcnt str i c = no_fuel
find (suc fuel) tzcnt str i c =
    advance tzcnt str i c >>= λ a. if ltb a 16 then done (i + a) else find fuel tzcnt str (i + a) c

-- while (true) { ... if (advance < 16 || i >= len) break; }
unfoldable pub find_until : ℕ → (ℕ → ℕ) → Bytes → ℕ → ℕ → ℕ → Exec ℕ
find_until zero tzcnt str i len c = no_fuel
find_until (suc fuel) tzcnt str i len c = advance tzcnt str i c >>= λ a.
    if ltb a 16 || leb len (i + a) then done (i + a) else find_until fuel tzcnt str (i + a) len c

-- while (str[i] != c) i++;
unfoldable pub serial_find : ℕ → Bytes → ℕ → ℕ → Exec ℕ
serial_find zero str i c = no_fuel
serial_find (suc fuel) str i c =
    must (get_elem? str i) >>= λ b. if b == c then done i else serial_find fuel str (i + 1) c

-- while (i < len && str[i] != c) i++;
unfoldable pub serial_find_until : ℕ → Bytes → ℕ → ℕ → ℕ → Exec ℕ
serial_find_until zero str i len c = no_fuel
serial_find_until (suc fuel) str i len c =
    if ltb i len
    then (must (get_elem? str i) >>= λ b.
        if b == c then done i else serial_find_until fuel str (i + 1) len c)
    else done i
