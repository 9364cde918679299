-- ===== src/Tokenizer/First.antt =====
-- src/utils/tokenizer.c: both counts of trailing zeros give the place of the first byte looked for, so
-- that each step of a search goes exactly to it, or over all sixteen.
use service_mesh_agent.Base.{
  ℕ, zero, suc, ◌+◌, ◌*◌, ◌/◌, ◌%◌, ◌^◌, ◌≤◌, ◌<◌, ◌≡◌, refl, sym, ap, subst, ◌∙◌, ◌⊎◌, inl, inr,
  [], ◌∷◌, ◌==◌, if◌then◌else◌, Bytes, min, length, take, drop, arith, done, ◌>>=◌, slice,
  length-take, length-drop, ◌↔◌, Bool-cases,
}
use native.Mathlib.Nat.{pow-suc, add-mul-mod_self_left, mod-eq_of_lt}
use service_mesh_agent.Base.Words.{u8, ◌>>>◌}
use service_mesh_agent.Tokenizer.Simd.{
  match_mask, zero_lanes, inspected, tzcnt_u32_using_popcnt_cmpgt, tzcnt_u32, trailing_zeros,
  advance,
}

-- The place of the first `c`, or the length.
abbrev pub first_of : ℕ → Bytes → ℕ
first_of c [] = 0
first_of c (b ∷ bs) = if b == c then 0 else suc (first_of c bs)

module _ (c : ℕ) where
  pub first_of-le : (u : Bytes) → first_of c u ≤ length u
  first_of-le [] = omega arith
  first_of-le (b ∷ u) = ground (arith, first_of-le u)

  pub first_of-take :
      (k : ℕ) (u : Bytes) → first_of c (take k u) ≡ min (min k (length u)) (first_of c u)
  first_of-take zero u = omega arith
  first_of-take (suc k) [] = omega arith
  first_of-take (suc k) (b ∷ u) = ground (arith, first_of-take k u)

  mask-lt : (u : Bytes) → match_mask u c < 2 ^ length u
  unfolding match_mask
  mask-lt [] = omega arith
  mask-lt (b ∷ u) = ground (arith, mask-lt u, pow-suc 2 (length u))

  -- The mask is 0 exactly without a `c`.
  mask_first :
      (u : Bytes)
      → ((match_mask u c ≡ 0) × (first_of c u ≡ length u))
        ⊎ ((0 < match_mask u c) × (first_of c u < length u))
  unfolding match_mask
  mask_first [] = inl (refl, refl)
  mask_first (b ∷ u) = ground (arith, mask_first u)

  mask_split :
      (k : ℕ) (u : Bytes)
      → match_mask u c ≡ match_mask (take k u) c + 2 ^ k * match_mask (drop k u) c
  unfolding match_mask
  mask_split zero u = omega arith
  mask_split (suc k) [] = omega arith
  mask_split (suc k) (b ∷ u) =
      ground (arith, mask_split k u, ap (λ t. t * match_mask (drop k u) c) (pow-suc 2 k))

  low_bits : (k : ℕ) (u : Bytes) → k ≤ length u → match_mask u c % 2 ^ k ≡ match_mask (take k u) c
  low_bits k u le =
      let len : length (take k u) ≡ k = omega (arith, length-take k u) in
      let below : match_mask (take k u) c < 2 ^ k =
        subst (λ n. match_mask (take k u) c < 2 ^ n) len (mask-lt (take k u)) in
      ap (λ n. n % 2 ^ k) (mask_split k u)
      ∙ (add-mul-mod_self_left (match_mask (take k u) c) (2 ^ k) (match_mask (drop k u) c)
          ∙ mod-eq_of_lt below)

  -- What the k-th lane sees, the rest by 2 ^ k.
  IsLane : ℕ → Bytes → Type 0
  IsLane k u =
      ((match_mask u c % 2 ^ k ≡ 0) × (k ≤ first_of c u))
      ⊎ ((0 < match_mask u c % 2 ^ k) × (first_of c u < k))

  lane : (k : ℕ) (u : Bytes) → k ≤ length u → IsLane k u
  unfolding IsLane
  lane k u le = ground (
    arith,
    low_bits k u le,
    mask_first (take k u),
    first_of-take k u,
    length-take k u,
    first_of-le u,
  )

  eight_lanes : (u : Bytes) → length u ≡ 8 → zero_lanes inspected (match_mask u c) ≡ first_of c u
  unfolding zero_lanes IsLane
  eight_lanes u e = ground (
    arith,
    first_of-le u,
    lane 1 u (omega arith),
    lane 2 u (omega arith),
    lane 3 u (omega arith),
    lane 4 u (omega arith),
    lane 5 u (omega arith),
    lane 6 u (omega arith),
    lane 7 u (omega arith),
    lane 8 u (omega arith),
  )

  pub first_of-drop :
      (k : ℕ) (u : Bytes) → k ≤ first_of c u → first_of c u ≡ k + first_of c (drop k u)
  first_of-drop zero u h = omega arith
  first_of-drop (suc k) [] h = absurd (omega arith)
  first_of-drop (suc k) (b ∷ u) h = ground (arith, first_of-drop k u)

  -- A count of trailing zeros that is right for vectors of sixteen bytes.
  unfoldable pub IsCount : (ℕ → ℕ) → Type 0
  IsCount tzcnt =
      (v : Bytes) → length v ≡ 16 → 0 < match_mask v c → tzcnt (match_mask v c) ≡ first_of c v

  half_value : (n : ℕ) → (2 * n) >>> 1 ≡ n
  half_value n = omega arith

  halves :
      (v : Bytes) (low first_low first_high : ℕ)
      → (low ≡ 0) ↔ (first_low ≡ 8)
      → first_low ≡ min (min 8 (length v)) (first_of c v)
      → (8 ≤ first_of c v → first_of c v ≡ 8 + first_high)
      → length v ≡ 16
      → first_of c v ≡ (if low == 0 then 8 + first_high else first_low)
  halves v low first_low first_high iff l h e = ground (arith, h)

  pub tzcnt_u32_using_popcnt_cmpgt-IsCount : IsCount tzcnt_u32_using_popcnt_cmpgt
  unfolding tzcnt_u32_using_popcnt_cmpgt IsCount
  tzcnt_u32_using_popcnt_cmpgt-IsCount v e some =
      let low = take 8 v in
      let high = drop 8 v in
      let split : match_mask v c ≡ match_mask low c + 2 ^ 8 * match_mask high c = mask_split 8 v in
      let len_low : length low ≡ 8 = omega (arith, length-take 8 v) in
      let len_high : length high ≡ 8 = omega (arith, length-drop 8 v) in
      let lt_low : match_mask low c < 2 ^ 8 =
        subst (λ n. match_mask low c < 2 ^ n) len_low (mask-lt low) in
      let lt_high : match_mask high c < 2 ^ 8 =
        subst (λ n. match_mask high c < 2 ^ n) len_high (mask-lt high) in
      let u8_low : u8 (match_mask v c) ≡ match_mask low c = omega arith in
      let u8_high : u8 (match_mask v c >>> 8) ≡ match_mask high c = omega arith in
      let hl = half_value (zero_lanes inspected (match_mask low c)) ∙ eight_lanes low len_low in
      let hh = half_value (zero_lanes inspected (match_mask high c)) ∙ eight_lanes high len_high in
      rw (u8_low, u8_high, hl, hh)
        (sym (
          halves v (match_mask low c) (first_of c low) (first_of c high)
            (ground (arith, mask_first low)) (first_of-take 8 v) (first_of-drop 8 v) e))

  trailing_zeros_lem :
      (n : ℕ) (v : Bytes)
      → length v ≤ n
      → 0 < match_mask v c
      → trailing_zeros n (match_mask v c) ≡ first_of c v
  unfolding trailing_zeros match_mask
  trailing_zeros_lem n [] le some = absurd (omega arith)
  trailing_zeros_lem zero (b ∷ v) le some = absurd (omega arith)
  trailing_zeros_lem (suc n) (b ∷ v) le some =
      let m = match_mask v c in
      let odd : (1 + 2 * m) % 2 ≡ 1 = omega arith in
      let even : (0 + 2 * m) % 2 ≡ 0 = omega arith in
      let half : (0 + 2 * m) / 2 ≡ m = omega arith in
      elim (Bool-cases (b == c)) [
        | inl e ↦ rw (e, odd) refl
        | inr e ↦
            rw (e, even, half)
              (ap suc (trailing_zeros_lem n v (omega arith) (ground (arith, e, some))))
      ]

  pub tzcnt_u32-IsCount : IsCount tzcnt_u32
  unfolding tzcnt_u32 IsCount
  tzcnt_u32-IsCount v e some = trailing_zeros_lem 32 v (omega arith) some

  -- A step of a search.
  pub advance_lem :
      (tzcnt : ℕ → ℕ) (str v : Bytes) (i : ℕ)
      → IsCount tzcnt
      → slice str i 16 ≡ done v
      → length v ≡ 16
      → advance tzcnt str i c ≡ done (first_of c v)
  unfolding advance IsCount
  advance_lem tzcnt str v i ok e len =
      rw (e, ◌>>=◌) (ap done (ground (arith, ok v len, mask_first v)))
