-- ===== src/Tokenizer/Split.antt =====
-- src/utils/tokenizer.c, the split of a body: off[0] is -1, then come in turn where a key ends and
-- where its value ends. A `str` is the memory from that pointer to the end of its buffer, a short
-- its 16-bit pattern. A short that leaves its range is a fault: `i`, which is stored by push_off when a
-- place is found, and runs to `len` + 15 at most in between.
use service_mesh_agent.Base.{
  ℕ, zero, suc, ◌+◌, ◌^◌, ◌&&◌, require, ◌-◌, List, [], ◌∷◌, ◌++◌, ltb, leb, ◌==◌, if◌then◌else◌,
  Bytes, Exec, done, fault, no_fuel, ◌>>=◌, slice, write, length, replicate,
}
use service_mesh_agent.Tokenizer.Simd.{
  Build, bmi, sse42, plain, tzcnt_u32_using_popcnt_cmpgt, tzcnt_u32, find, find_until, serial_find,
  serial_find_until,
}

-- `short off[32]`: the entries written so far, `next` being their number. The place is a short that is
-- not negative.
unfoldable pub push_off : List ℕ → ℕ → Exec (List ℕ)
push_off off v = if ltb (length off) 32 && ltb v (2 ^ 15) then done (off ++ v ∷ []) else fault

abbrev pub minus_one : ℕ
minus_one = 2 ^ 16 - 1

module _ (str : Bytes) (len : ℕ) where
  unfoldable pub serial_loop : ℕ → ℕ → List ℕ → Exec (List ℕ)
  serial_loop zero i off = no_fuel
  serial_loop (suc fuel) i off = serial_find (suc (length str)) str i b'=' >>= λ i.
      push_off off i >>= λ off. serial_find_until (suc (length str)) str i len b'&' >>= λ i.
      push_off off i >>= λ off. if i == len then done off else serial_loop fuel i off

  unfoldable pub simd_loop : (ℕ → ℕ) → ℕ → ℕ → List ℕ → Exec (List ℕ)
  simd_loop tzcnt zero i off = no_fuel
  simd_loop tzcnt (suc fuel) i off = find (suc (length str)) tzcnt str i b'=' >>= λ i.
      push_off off i >>= λ off. find_until (suc (length str)) tzcnt str i len b'&' >>= λ i.
      push_off off (if ltb i len then i else len) >>= λ off.
      if leb len i then done off else simd_loop tzcnt fuel i off

-- The results are the offsets; `next` is their number.
unfoldable pub serial_split : Bytes → ℕ → Exec (List ℕ)
serial_split str len = serial_loop str len (suc (length str)) 0 (minus_one ∷ [])

-- The sixteen bytes behind the body are zeroed for the search and put back.
unfoldable pub sse4_split_efficient : Bytes → ℕ → Exec (Bytes × List ℕ)
sse4_split_efficient str len = do
  _ ← require (ltb (len + 15) (2 ^ 15))
  restore_buf ← slice str len 16
  zeroed ← write str len (replicate 16 0)
  off ← simd_loop zeroed len tzcnt_u32_using_popcnt_cmpgt (suc (length str)) 0 (minus_one ∷ [])
  restored ← write zeroed len restore_buf
  done (restored, off)

-- Here they stay zero.
unfoldable pub avx_split_efficient : Bytes → ℕ → Exec (Bytes × List ℕ)
avx_split_efficient str len = do
  _ ← require (ltb (len + 15) (2 ^ 15))
  zeroed ← write str len (replicate 16 0)
  off ← simd_loop zeroed len tzcnt_u32 (suc (length str)) 0 (minus_one ∷ [])
  done (zeroed, off)

unfoldable pub simd_split_efficient : Build → Bytes → ℕ → Exec (Bytes × List ℕ)
simd_split_efficient bmi str len = avx_split_efficient str len
simd_split_efficient sse42 str len = sse4_split_efficient str len
simd_split_efficient plain str len = serial_split str len >>= λ off. done (str, off)
