-- ===== src/Tokenizer/Splits.antt =====
-- src/utils/tokenizer.c: what the vector splits return for a form, and what they leave in the memory
-- behind it.
use service_mesh_agent.Base.{
  ℕ, suc, ◌+◌, ◌^◌, ◌<◌, lt→ltb, ◌≤◌, ◌≡◌, refl, ap, ◌∙◌, List, [], ◌∷◌, ◌++◌, Bytes, length, take,
  drop, arith, done, ◌>>=◌, slice, le→leb, length-append, drop_all, write, replicate, write_behind,
  take-append-drop, length-take, length-drop,
}
use service_mesh_agent.Tokenizer.Simd.{
  Build, bmi, sse42, plain, tzcnt_u32, tzcnt_u32_using_popcnt_cmpgt,
}
use service_mesh_agent.Tokenizer.First.{
  IsCount, tzcnt_u32-IsCount, tzcnt_u32_using_popcnt_cmpgt-IsCount,
}
use service_mesh_agent.Tokenizer.Offsets.{Field, IsForm, encode, ends_from, loop_lem}
use service_mesh_agent.Tokenizer.Fields.{
  simd_field_next, simd_field_last, serial_field_next, serial_field_last,
}
use service_mesh_agent.Tokenizer.Split.{
  minus_one, simd_loop, serial_loop, serial_split, simd_split_efficient, sse4_split_efficient,
  avx_split_efficient,
}

abbrev pub zeros : Bytes
zeros = replicate 16 0

-- What lies behind the form after the split.
abbrev pub left_behind : Build → Bytes → Bytes
left_behind bmi rest = zeros ++ drop 16 rest
left_behind sse42 rest = rest
left_behind plain rest = rest

pub length-left_behind :
    (build : Build) (rest : Bytes)
    → 16 ≤ length rest
    → length (left_behind build rest) ≡ length rest
length-left_behind bmi rest h =
    omega (arith, length-append zeros (drop 16 rest), length-drop 16 rest)
length-left_behind sse42 rest h = refl
length-left_behind plain rest h = refl

module _ (p : Field) (ps : List Field) (rest : Bytes) (room : 16 ≤ length rest)
    (form : IsForm (p ∷ ps)) (few : length (p ∷ ps) ≤ 15)
    (small : length (encode (p ∷ ps)) + 15 < 2 ^ 15) where
  text : Bytes
  text = encode (p ∷ ps)

  zeroed : Bytes
  unfolding text
  zeroed = text ++ (zeros ++ drop 16 rest)

  zeroes : write (text ++ rest) (length text) zeros ≡ done zeroed
  unfolding zeroed
  zeroes = write_behind text zeros rest room

  long : length zeroed ≡ length (text ++ rest)
  unfolding zeroed
  long = omega (
    arith,
    length-append text (zeros ++ drop 16 rest),
    length-append text rest,
    length-drop 16 rest,
  )

  -- The loop finds the ends of the fields.
  ends :
      (tzcnt : ℕ → ℕ)
      → IsCount b'=' tzcnt
      → IsCount b'&' tzcnt
      → simd_loop zeroed (length text) tzcnt (suc (length (text ++ rest))) 0 (minus_one ∷ [])
        ≡ done (minus_one ∷ ends_from 0 (p ∷ ps))
  unfolding zeroed text
  ends tzcnt is and =
      loop_lem zeroed (length text) (simd_loop zeroed (length text) tzcnt)
        (simd_field_next zeroed (length text) tzcnt is and
          (omega (arith, long, length-append text rest)) (omega arith))
        (simd_field_last zeroed (length text) tzcnt is and
          (omega (arith, long, length-append text rest)) (omega arith))
        p ps (suc (length (text ++ rest))) 0 0 (minus_one ∷ []) (zeros ++ drop 16 rest) refl
        (omega arith) refl form (omega arith) (omega (arith, length-append text rest))

  saves : slice (text ++ rest) (length text) 16 ≡ done (take 16 rest)
  saves =
      rw
        (
          le→leb (length text + 16) (length (text ++ rest))
              (omega (arith, length-append text rest)),
          drop_all text rest,
        )
        refl

  restores : write zeroed (length text) (take 16 rest) ≡ done (text ++ rest)
  unfolding zeroed
  restores =
      let sixteen : length (take 16 rest) ≡ 16 = omega (arith, length-take 16 rest) in
      write_behind text (take 16 rest) (zeros ++ drop 16 rest)
        (omega (arith, length-append zeros (drop 16 rest)))
      ∙ ap (λ r. done (text ++ r))
          (ap (λ n. take 16 rest ++ drop n (zeros ++ drop 16 rest)) sixteen
            ∙ take-append-drop 16 rest)

  -- The sse4 split returns where the keys and the values of a form end, and leaves the memory as it
  -- was, if sixteen bytes lie behind a form of at most 15 fields whose places are shorts.
  pub sse4_split_efficient_lem :
      sse4_split_efficient (encode (p ∷ ps) ++ rest) (length (encode (p ∷ ps)))
      ≡ done (encode (p ∷ ps) ++ rest, minus_one ∷ ends_from 0 (p ∷ ps))
  unfolding sse4_split_efficient text
  sse4_split_efficient_lem =
      let found =
        ends tzcnt_u32_using_popcnt_cmpgt (tzcnt_u32_using_popcnt_cmpgt-IsCount b'=')
          (tzcnt_u32_using_popcnt_cmpgt-IsCount b'&') in
      rw (lt→ltb (length text + 15) (2 ^ 15) small, ◌>>=◌, saves, zeroes, found, restores) refl

  -- The avx split returns the same, but leaves the sixteen bytes behind the form zero.
  pub avx_split_efficient_lem :
      avx_split_efficient (encode (p ∷ ps) ++ rest) (length (encode (p ∷ ps)))
      ≡ done (encode (p ∷ ps) ++ (zeros ++ drop 16 rest), minus_one ∷ ends_from 0 (p ∷ ps))
  unfolding avx_split_efficient text zeroed
  avx_split_efficient_lem =
      let found = ends tzcnt_u32 (tzcnt_u32-IsCount b'=') (tzcnt_u32-IsCount b'&') in
      rw (lt→ltb (length text + 15) (2 ^ 15) small, ◌>>=◌, zeroes, found) refl

  serial_split_lem :
      serial_split (encode (p ∷ ps) ++ rest) (length (encode (p ∷ ps)))
      ≡ done (minus_one ∷ ends_from 0 (p ∷ ps))
  unfolding serial_split
  serial_split_lem =
      let str = encode (p ∷ ps) ++ rest in
      let len = length (encode (p ∷ ps)) in
      let inside : len ≤ length str = omega (arith, length-append (encode (p ∷ ps)) rest) in
      loop_lem str len (serial_loop str len) (serial_field_next str len inside (omega arith))
        (serial_field_last str len inside (omega arith)) p ps (suc (length str)) 0 0
        (minus_one ∷ []) rest refl (omega arith) refl form (omega arith)
        (omega (arith, length-append (encode (p ∷ ps)) rest))

  -- Every build finds the same: where the keys and the values of a form of at most 15 fields end, if
  -- sixteen bytes lie behind it and its length with fifteen more is a short that is not negative. The
  -- memory is as before but in a build with BMI, which leaves those sixteen bytes zero.
  pub simd_split_efficient_lem :
      (build : Build)
      → simd_split_efficient build (encode (p ∷ ps) ++ rest) (length (encode (p ∷ ps)))
        ≡ done (encode (p ∷ ps) ++ left_behind build rest, minus_one ∷ ends_from 0 (p ∷ ps))
  unfolding simd_split_efficient
  simd_split_efficient_lem bmi = avx_split_efficient_lem
  simd_split_efficient_lem sse42 = sse4_split_efficient_lem
  simd_split_efficient_lem plain = rw (serial_split_lem, ◌>>=◌) refl
