-- ===== src/Tokenizer/Fields.antt =====
-- src/utils/tokenizer.c: one round of the loops of the splits, which stores the ends of one field.
use service_mesh_agent.Base.{
  ℕ, suc, ◌+◌, ◌^◌, ◌≤◌, ◌<◌, ◌≡◌, refl, ap, ◌∙◌, List, [], ◌∷◌, ◌++◌, Bytes, length, arith, done,
  ◌>>=◌, le→leb, lt→ltb, le→not-ltb, lt→not-leb, append_assoc, length-append, eq→==, ne→not-==,
}
use service_mesh_agent.Tokenizer.Simd.{find, find_until, serial_find, serial_find_until}
use service_mesh_agent.Tokenizer.First.{IsCount}
use service_mesh_agent.Tokenizer.Scan.{
  next_of, find_lem, find_until_lem, serial_find_lem, serial_find_until_lem,
}
use service_mesh_agent.Tokenizer.Split.{push_off, serial_loop, simd_loop}

push_off_lem :
    (off : List ℕ) (v : ℕ) → length off < 32 → v < 2 ^ 15 → push_off off v ≡ done (off ++ v ∷ [])
unfolding push_off
push_off_lem off v h k = rw (lt→ltb (length off) 32 h, lt→ltb v (2 ^ 15) k) refl

-- What both loops do with a field, the search for it starting at `i`: two offsets are stored.
module _ (str : Bytes) (len : ℕ) (tzcnt : ℕ → ℕ) (is : IsCount b'=' tzcnt)
    (and : IsCount b'&' tzcnt) (room : len + 16 ≤ length str) (small : len < 2 ^ 15) where
  pub simd_field_next :
      (fuel i : ℕ) (off : List ℕ) (key_end val_end : ℕ)
      → next_of b'=' str i ≡ key_end
      → key_end ≤ val_end
      → val_end < len
      → next_of b'&' str key_end ≡ val_end
      → length off + 2 ≤ 32
      → simd_loop str len tzcnt (suc fuel) i off
        ≡ simd_loop str len tzcnt fuel val_end (off ++ key_end ∷ val_end ∷ [])
  unfolding simd_loop
  simd_field_next fuel i off key_end val_end ek le lt ev short =
      let (r, er, em) =
        find_until_lem b'&' str tzcnt (suc (length str)) key_end len and (omega arith) room
          (omega arith) in
      let ends : find_until (suc (length str)) tzcnt str key_end len b'&' ≡ done val_end =
        er ∙ ap done (omega arith) in
      let found : find (suc (length str)) tzcnt str i b'=' ≡ done key_end =
        find_lem b'=' str tzcnt (suc (length str)) i is (omega arith) (omega arith) ∙ ap done ek in
      rw
        (
          found,
          ◌>>=◌,
          push_off_lem off key_end (omega arith) (omega arith),
          ends,
          lt→ltb val_end len lt,
          push_off_lem (off ++ key_end ∷ []) val_end
              (omega (arith, length-append off (key_end ∷ []))) (omega arith),
          append_assoc,
          lt→not-leb len val_end lt,
        )
        refl

  pub simd_field_last :
      (fuel i : ℕ) (off : List ℕ) (key_end : ℕ)
      → next_of b'=' str i ≡ key_end
      → key_end < len
      → len ≤ next_of b'&' str key_end
      → length off + 2 ≤ 32
      → simd_loop str len tzcnt (suc fuel) i off ≡ done (off ++ key_end ∷ len ∷ [])
  unfolding simd_loop
  simd_field_last fuel i off key_end ek lt ev short =
      let (r, er, em) =
        find_until_lem b'&' str tzcnt (suc (length str)) key_end len and (omega arith) room
          (omega arith) in
      let found : find (suc (length str)) tzcnt str i b'=' ≡ done key_end =
        find_lem b'=' str tzcnt (suc (length str)) i is (omega arith) (omega arith) ∙ ap done ek in
      rw
        (
          found,
          ◌>>=◌,
          push_off_lem off key_end (omega arith) (omega arith),
          er,
          le→not-ltb r len (omega arith),
          push_off_lem (off ++ key_end ∷ []) len (omega (arith, length-append off (key_end ∷ [])))
              (omega arith),
          append_assoc,
          le→leb len r (omega arith),
        )
        refl

module _ (str : Bytes) (len : ℕ) (inside : len ≤ length str) (small : len < 2 ^ 15) where
  pub serial_field_next :
      (fuel i : ℕ) (off : List ℕ) (key_end val_end : ℕ)
      → next_of b'=' str i ≡ key_end
      → key_end ≤ val_end
      → val_end < len
      → next_of b'&' str key_end ≡ val_end
      → length off + 2 ≤ 32
      → serial_loop str len (suc fuel) i off
        ≡ serial_loop str len fuel val_end (off ++ key_end ∷ val_end ∷ [])
  unfolding serial_loop
  serial_field_next fuel i off key_end val_end ek le lt ev short =
      let found : serial_find (suc (length str)) str i b'=' ≡ done key_end =
        serial_find_lem b'=' str (suc (length str)) i (omega arith) (omega arith) ∙ ap done ek in
      let ends : serial_find_until (suc (length str)) str key_end len b'&' ≡ done val_end =
        serial_find_until_lem b'&' str (suc (length str)) key_end len (omega arith) inside
          (omega arith)
        ∙ ap done (omega arith) in
      rw
        (
          found,
          ◌>>=◌,
          push_off_lem off key_end (omega arith) (omega arith),
          ends,
          push_off_lem (off ++ key_end ∷ []) val_end
              (omega (arith, length-append off (key_end ∷ []))) (omega arith),
          append_assoc,
          ne→not-== val_end len (λ e. omega (arith, e)),
        )
        refl

  pub serial_field_last :
      (fuel i : ℕ) (off : List ℕ) (key_end : ℕ)
      → next_of b'=' str i ≡ key_end
      → key_end < len
      → len ≤ next_of b'&' str key_end
      → length off + 2 ≤ 32
      → serial_loop str len (suc fuel) i off ≡ done (off ++ key_end ∷ len ∷ [])
  unfolding serial_loop
  serial_field_last fuel i off key_end ek lt ev short =
      let found : serial_find (suc (length str)) str i b'=' ≡ done key_end =
        serial_find_lem b'=' str (suc (length str)) i (omega arith) (omega arith) ∙ ap done ek in
      let ends : serial_find_until (suc (length str)) str key_end len b'&' ≡ done len =
        serial_find_until_lem b'&' str (suc (length str)) key_end len (omega arith) inside
          (omega arith)
        ∙ ap done (omega arith) in
      rw
        (
          found,
          ◌>>=◌,
          push_off_lem off key_end (omega arith) (omega arith),
          ends,
          push_off_lem (off ++ key_end ∷ []) len (omega (arith, length-append off (key_end ∷ [])))
              (omega arith),
          append_assoc,
          eq→== len len refl,
        )
        refl
