-- ===== src/Tokenizer/Serialize.antt =====
-- src/utils/tokenizer.c, serialize_str and serialize_path_dict: the value of one key is written to
-- the request. An int is its 32-bit pattern; a pattern of a negative one lies behind every buffer.
use service_mesh_agent.Base.{
  ℕ, zero, suc, ◌+◌, ◌*◌, ◌/◌, ◌-◌, ◌^◌, List, [], ◌∷◌, ltb, leb, ◌==◌, if◌then◌else◌, Bytes, Bool,
  false, ◌&&◌, ◌||◌, Exec, done, no_fuel, get_elem?, get_or, must, ◌>>=◌, slice, write, length,
  codes, eq_bytes,
}
use service_mesh_agent.Base.Words.{u8, u32}
use service_mesh_agent.Tokenizer.Simd.{
  Build, bmi, sse42, plain, tzcnt_u32_using_popcnt_cmpgt, tzcnt_u32, find_until, serial_find_until,
}

abbrev pub post_keys : List Bytes
post_keys =
    codes "interface" ∷ codes "method" ∷ codes "parameterTypesString" ∷ codes "parameter" ∷ []

-- What is written to, and up to where.
pub record Target : Type 0 where
  pub res : Bytes
  pub offset : ℕ

-- memcpy (res + offset, bytes, n); offset += n;
unfoldable pub put : Target → Bytes → Exec Target
put t bytes = write t.res t.offset bytes >>= λ res.
    done (record { res = res; offset = t.offset + length bytes })

-- A short and a char as an int.
abbrev pub short_to_int : ℕ → ℕ
short_to_int w = if ltb w (2 ^ 15) then w else w + (2 ^ 32 - 2 ^ 16)

abbrev pub char_to_int : ℕ → ℕ
char_to_int b = if ltb b (2 ^ 7) then b else b + (2 ^ 32 - 2 ^ 8)

-- `ch` is signed, so that one from 0x80 on is below 'A'.
unfoldable pub hex2int : ℕ → ℕ
hex2int ch =
    if ltb ch b'A' || leb (2 ^ 7) ch
    then u32 (char_to_int ch + (2 ^ 32 - b'0'))
    else 10 + (if ltb ch b'a' then ch - b'A' else ch - b'a')

-- The first `%` from `seek` on, or a place at or behind the end.
unfoldable pub seek_percent : Build → Bytes → ℕ → ℕ → Exec ℕ
seek_percent bmi str seek end = find_until (suc (length str)) tzcnt_u32 str seek end b'%'
seek_percent sse42 str seek end =
    find_until (suc (length str)) tzcnt_u32_using_popcnt_cmpgt str seek end b'%'
seek_percent plain str seek end = serial_find_until (suc (length str)) str seek end b'%'

-- The char that an escape stands for.
unfoldable pub escaped : Bytes → ℕ → Exec ℕ
unfolding hex2int
escaped str seek = do
  high ← must (get_elem? str (seek + 1))
  low ← must (get_elem? str (seek + 2))
  done (u8 (hex2int high * 16 + hex2int low))

module _ (build : Build) (str : Bytes) where
  -- for (seek = val_off_beg; seek < val_off_end;)
  unfoldable pub decode : ℕ → ℕ → ℕ → Target → Exec Target
  decode zero end last_seek t = no_fuel
  decode (suc fuel) end last_seek t =
      if ltb last_seek end
      then (seek_percent build str last_seek end >>= λ found.
          let seek = if ltb end found then end else found in
          slice str last_seek (seek - last_seek) >>= λ plain_part. put t plain_part >>= λ t.
          if seek == end
          then decode fuel end seek t
          else (escaped str seek >>= λ c. put t (c ∷ []) >>= λ t. decode fuel end (seek + 3) t))
      else done t

  -- The first char is compared before the call of strncmp, and the length.
  unfoldable pub is_key : Bytes → ℕ → ℕ → Exec Bool
  is_key key beg end = must (get_elem? str beg) >>= λ c.
      if (get_or key 0 0 == c) && (end == beg + length key)
      then (slice str beg (length key) >>= λ k. done (eq_bytes key k))
      else done false

  -- The pairs from number `i` on, `n` of them.
  unfoldable pub serialize_pairs : List ℕ → ℕ → ℕ → ℕ → Target → Exec Target
  serialize_pairs off j zero i t = done t
  serialize_pairs off j (suc n) i t = do
    before ← must (get_elem? off (i * 2))
    key_end ← must (get_elem? off (i * 2 + 1))
    found ← is_key (get_or post_keys j []) (u32 (short_to_int before + 1)) (short_to_int key_end)
    if found
        then (do
          val_end ← must (get_elem? off (i * 2 + 2))
          t ← put t (codes "\"")
          t ← decode (suc (length str)) (short_to_int val_end) (u32 (short_to_int key_end + 1)) t
          put t (codes "\"\n"))
        else serialize_pairs off j n (i + 1) t

  unfoldable pub serialize_str : List ℕ → ℕ → Target → ℕ → Exec Target
  serialize_str off len_off t j = serialize_pairs off j (len_off / 2) 0 t

-- The value of `interface` as it is in the body, in a dictionary.
unfoldable pub path_pairs : Bytes → List ℕ → ℕ → ℕ → Target → Exec Target
path_pairs str off zero i t = done t
path_pairs str off (suc n) i t = do
  before ← must (get_elem? off (i * 2))
  end ← must (get_elem? off (i * 2 + 1))
  let beg = u32 (short_to_int before + 1)
  let key = get_or post_keys 0 []
  found ←
      if short_to_int end == beg + length key
      then (slice str beg (length key) >>= λ k. done (eq_bytes key k))
      else done false
  if found
      then (do
        val_end ← must (get_elem? off (i * 2 + 2))
        let val_beg = u32 (short_to_int end + 1)
        value ← slice str val_beg (short_to_int val_end - val_beg)
        t ← put t (codes "{\"path\":\"")
        t ← put t value
        put t (codes "\"}\n"))
      else path_pairs str off n (i + 1) t

unfoldable pub serialize_path_dict : Bytes → List ℕ → ℕ → Target → Exec Target
serialize_path_dict str off len_off t = path_pairs str off (len_off / 2) 0 t
