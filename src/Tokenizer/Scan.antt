-- ===== src/Tokenizer/Scan.antt =====
-- src/utils/tokenizer.c: where the searches for a byte end, sixteen bytes at a time and one by one.
use service_mesh_agent.Base.{
  ℕ, zero, suc, ◌+◌, ◌≤◌, ◌<◌, ◌≡◌, refl, ap, ◌∙◌, inl, inr, ◌∷◌, ◌==◌, Bytes, min, length, take,
  drop, arith, done, ◌>>=◌, length-take, le→leb, length-drop, lt→ltb, le→not-ltb, lt→not-leb,
  Bool-cases, drop-drop, must, get_elem?, get_elem?_in, drop_at, some,
}
use native.Mathlib.Decide.{dec_lt}
use service_mesh_agent.Tokenizer.Simd.{find, find_until, serial_find, serial_find_until, advance}
use service_mesh_agent.Tokenizer.First.{
  first_of, first_of-take, first_of-drop, IsCount, advance_lem,
}

-- The next `c` from `i` on, or the end of the memory.
abbrev pub next_of : ℕ → Bytes → ℕ → ℕ
next_of c str i = i + first_of c (drop i str)

module _ (c : ℕ) (str : Bytes) where
  -- One step over the vector at `i`.
  step_at :
      (tzcnt : ℕ → ℕ) (i : ℕ)
      → IsCount c tzcnt
      → i + 16 ≤ length str
      → advance tzcnt str i c ≡ done (min 16 (first_of c (drop i str)))
  step_at tzcnt i ok le =
      let v = take 16 (drop i str) in
      advance_lem c tzcnt str v i ok (rw (le→leb (i + 16) (length str) le) refl)
        (omega (arith, length-take 16 (drop i str), length-drop i str))
      ∙ ap done (omega (arith, first_of-take c 16 (drop i str), length-drop i str))

  next_of_skip : (i k : ℕ) → k ≤ first_of c (drop i str) → next_of c str (i + k) ≡ next_of c str i
  next_of_skip i k le =
      omega (arith, first_of-drop c k (drop i str) le, ap (first_of c) (drop-drop k i str))

  pub find_lem :
      (tzcnt : ℕ → ℕ) (fuel i : ℕ)
      → IsCount c tzcnt
      → next_of c str i + 16 ≤ length str
      → next_of c str i < i + fuel
      → find fuel tzcnt str i c ≡ done (next_of c str i)
  unfolding find
  find_lem tzcnt zero i ok le more = absurd (omega arith)
  find_lem tzcnt (suc fuel) i ok le more =
      let f = first_of c (drop i str) in
      rw (step_at tzcnt i ok (omega arith), ◌>>=◌)
        (elim (dec_lt f 16) [
          | yes h ↦ let a : min 16 f ≡ f = omega arith in rw (a, lt→ltb f 16 h) refl
          | no h ↦
              let a : min 16 f ≡ 16 = omega arith in
              let skip = next_of_skip i 16 (omega arith) in
              rw (a) (find_lem tzcnt fuel (i + 16) ok (omega arith) (omega arith) ∙ ap done skip)
        ])

  pub find_until_lem :
      (tzcnt : ℕ → ℕ) (fuel i len : ℕ)
      → IsCount c tzcnt
      → i ≤ len
      → len + 16 ≤ length str
      → len < i + fuel
      → (r : ℕ) × (find_until fuel tzcnt str i len c ≡ done r)
        × (min r len ≡ min (next_of c str i) len)
  unfolding find_until
  find_until_lem tzcnt zero i len ok le room more = absurd (omega arith)
  find_until_lem tzcnt (suc fuel) i len ok le room more =
      let f = first_of c (drop i str) in
      elim (dec_lt f 16) [
        | yes h ↦
            let a : min 16 f ≡ f = omega arith in
            (i + f, rw (step_at tzcnt i ok (omega arith), ◌>>=◌, a, lt→ltb f 16 h) refl, refl)
        | no h ↦
            let a : min 16 f ≡ 16 = omega arith in
            elim (dec_lt (i + 16) len) [
              | yes before ↦
                  let (r, er, em) =
                    find_until_lem tzcnt fuel (i + 16) len ok (omega arith) room (omega arith) in
                  (
                    r,
                    rw (step_at tzcnt i ok (omega arith), ◌>>=◌, a, lt→not-leb len (i + 16) before)
                        er,
                    omega (arith, em, next_of_skip i 16 (omega arith)),
                  )
              | no behind ↦ (
                i + 16,
                rw (step_at tzcnt i ok (omega arith), ◌>>=◌, a, le→leb len (i + 16) (omega arith))
                    refl,
                omega arith,
              )
            ]
      ]

  -- The same one by one.
  first_at :
      (i : ℕ)
      → i < length str
      → (b : ℕ) × (get_elem? str i ≡ some b) × (drop i str ≡ b ∷ drop (suc i) str)
  first_at i lt = let (b, e) = get_elem?_in str i lt in (b, e, drop_at str i e)

  pub serial_find_lem :
      (fuel i : ℕ)
      → next_of c str i < length str
      → next_of c str i < i + fuel
      → serial_find fuel str i c ≡ done (next_of c str i)
  unfolding serial_find
  serial_find_lem zero i lt more = absurd (omega arith)
  serial_find_lem (suc fuel) i lt more =
      let (b, e, ed) = first_at i (omega arith) in
      let ef = ap (first_of c) ed in
      elim (Bool-cases (b == c)) [
        | inl t ↦ rw (e, must, ◌>>=◌, t) (ap done (ground (arith, ef, t)))
        | inr f ↦
            let next : next_of c str (i + 1) ≡ next_of c str i =
              ground (arith, next_of_skip i 1, ef, f) in
            rw (e, must, ◌>>=◌, f)
              (serial_find_lem fuel (i + 1) (omega arith) (omega arith) ∙ ap done next)
      ]

  pub serial_find_until_lem :
      (fuel i len : ℕ)
      → i ≤ len
      → len ≤ length str
      → len < i + fuel
      → serial_find_until fuel str i len c ≡ done (min (next_of c str i) len)
  unfolding serial_find_until
  serial_find_until_lem zero i len le room more = absurd (omega arith)
  serial_find_until_lem (suc fuel) i len le room more = elim (dec_lt i len) [
    | no h ↦ rw (le→not-ltb i len (omega arith)) (ap done (omega arith))
    | yes h ↦
        let (b, e, ed) = first_at i (omega arith) in
        let ef = ap (first_of c) ed in
        elim (Bool-cases (b == c)) [
          | inl t ↦ rw (lt→ltb i len h, e, must, ◌>>=◌, t) (ap done (ground (arith, ef, t)))
          | inr f ↦
              let next : next_of c str (i + 1) ≡ next_of c str i =
                ground (arith, next_of_skip i 1, ef, f) in
              rw (lt→ltb i len h, e, must, ◌>>=◌, f)
                (serial_find_until_lem fuel (i + 1) len (omega arith) room (omega arith)
                  ∙ ap done (omega arith))
        ]
  ]
