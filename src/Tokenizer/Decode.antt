-- ===== src/Tokenizer/Decode.antt =====
-- src/utils/tokenizer.c, serialize_str: how a value is written with its escapes decoded.
use service_mesh_agent.Base.{
  ℕ, zero, suc, ◌+◌, ◌*◌, ◌-◌, ◌≤◌, ◌<◌, ◌≡◌, refl, sym, ap, ap₂, ◌∙◌, List, [], ◌∷◌, ◌++◌, ltb,
  ◌==◌, if◌then◌else◌, get_elem?-drop, Bytes, length, drop, min, arith, Exec, done, ◌>>=◌, slice,
  le→leb, append_assoc, append-nil, length-append, drop_all, take_all, write_behind, drop-drop,
  must, get_elem?, lt→ltb, le→not-ltb, eq→==, ne→not-==, drop_of_eq, length-drop, some,
}
use service_mesh_agent.Base.Words.{u8}
use service_mesh_agent.Tokenizer.Simd.{
  Build, bmi, sse42, plain, tzcnt_u32, tzcnt_u32_using_popcnt_cmpgt,
}
use service_mesh_agent.Tokenizer.First.{
  first_of, tzcnt_u32-IsCount, tzcnt_u32_using_popcnt_cmpgt-IsCount,
}
use service_mesh_agent.Tokenizer.Scan.{next_of, find_until_lem, serial_find_until_lem}
use service_mesh_agent.Tokenizer.Hex.{hex_value, hex2int_lem}
use service_mesh_agent.Tokenizer.Offsets.{Lacks, first_of-append}
use service_mesh_agent.Tokenizer.Serialize.{Target, put, seek_percent, escaped, decode}

-- What has been written, and the memory behind it.
abbrev pub target_at : Bytes → Bytes → Target
target_at p rest = record { res = p ++ rest; offset = length p }

pub put_lem :
    (p rest bs : Bytes)
    → length bs ≤ length rest
    → put (target_at p rest) bs ≡ done (target_at (p ++ bs) (drop (length bs) rest))
unfolding put
put_lem p rest bs h =
    rw (write_behind p bs rest h, ◌>>=◌, append_assoc)
      (ap (λ n. done (record { res = p ++ (bs ++ drop (length bs) rest); offset = n }))
        (sym (length-append p bs)))

-- A part of a value without a '%', then an escape.
pub record Escape : Type 0 where
  pub before : Bytes
  pub high : ℕ
  pub low : ℕ

-- A value is parts that end in an escape, and a last part.
abbrev pub encode_value : List Escape → Bytes → Bytes
encode_value [] last = last
encode_value (e ∷ es) last = e.before ++ b'%' ∷ e.high ∷ e.low ∷ encode_value es last

abbrev pub decode_value : List Escape → Bytes → Bytes
decode_value [] last = last
decode_value (e ∷ es) last =
    e.before ++ u8 (hex_value e.high * 16 + hex_value e.low) ∷ decode_value es last

abbrev pub IsValue : List Escape → Bytes → Type 0
IsValue [] last = Lacks b'%' last
IsValue (e ∷ es) last = Lacks b'%' e.before × IsValue es last

-- One write behind another is one write.
pub target_append :
    (p a b rest : Bytes)
    → target_at ((p ++ a) ++ b) (drop (length b) (drop (length a) rest))
      ≡ target_at (p ++ (a ++ b)) (drop (length (a ++ b)) rest)
target_append p a b rest = ap₂ target_at (append_assoc p a b) (
    drop-drop (length b) (length a) rest
    ∙ drop_of_eq {m = length a + length b} {n = length (a ++ b)} rest
        (omega (arith, length-append a b)))

pub escapes_short : (es : List Escape) (last : Bytes) → length es ≤ length (encode_value es last)
escapes_short [] last = omega arith
escapes_short (e ∷ es) last = omega (
  arith,
  escapes_short es last,
  length-append e.before (b'%' ∷ e.high ∷ e.low ∷ encode_value es last),
)

target_joined :
    (p u : Bytes) (c : ℕ) (d rest : Bytes)
    → target_at (((p ++ u) ++ c ∷ []) ++ d) (drop (length d) (drop 1 (drop (length u) rest)))
      ≡ target_at (p ++ (u ++ c ∷ d)) (drop (length (u ++ c ∷ d)) rest)
target_joined p u c d rest =
    ap₂ target_at (append_assoc (p ++ u) (c ∷ []) d ∙ append_assoc p u (c ∷ d)) (
      ap (drop (length d)) (drop-drop 1 (length u) rest)
      ∙ (drop-drop (length d) (length u + 1) rest
          ∙ drop_of_eq {m = length u + 1 + length d} {n = length (u ++ c ∷ d)} rest
              (omega (arith, length-append u (c ∷ d)))))

-- Every build finds the next '%', or no place before the end.
seek_percent_lem :
    (build : Build) (str : Bytes) (seek end : ℕ)
    → seek ≤ end
    → end + 16 ≤ length str
    → (found : ℕ) × (seek_percent build str seek end ≡ done found)
      × ((if ltb end found then end else found) ≡ min (next_of b'%' str seek) end)
unfolding seek_percent
seek_percent_lem bmi str seek end le room =
    let (r, er, em) =
      find_until_lem b'%' str tzcnt_u32 (suc (length str)) seek end (tzcnt_u32-IsCount b'%') le room
        (omega arith) in
    (r, er, ground (arith, em))
seek_percent_lem sse42 str seek end le room =
    let (r, er, em) =
      find_until_lem b'%' str tzcnt_u32_using_popcnt_cmpgt (suc (length str)) seek end
        (tzcnt_u32_using_popcnt_cmpgt-IsCount b'%') le room (omega arith) in
    (r, er, ground (arith, em))
seek_percent_lem plain str seek end le room = (
  min (next_of b'%' str seek) end,
  serial_find_until_lem b'%' str (suc (length str)) seek end le (omega arith) (omega arith),
  ground arith,
)

module _ (build : Build) (str : Bytes) (end : ℕ) (room : end + 16 ≤ length str) where
  -- A round of the loop: the part up to `stop`, and what comes then.
  decode_round :
      (fuel seek : ℕ) (u w p rest : Bytes)
      → seek < end
      → drop seek str ≡ u ++ w
      → min (next_of b'%' str seek) end ≡ seek + length u
      → seek + length u ≤ length str
      → length u ≤ length rest
      → (k : Target → Exec Target)
      → ((t : Target)
          → (if seek + length u == end
              then decode build str fuel end (seek + length u) t
              else (escaped str (seek + length u) >>= λ c.
                  put t (c ∷ []) >>= λ t. decode build str fuel end (seek + length u + 3) t))
            ≡ k t)
      → decode build str (suc fuel) end seek (target_at p rest)
        ≡ k (target_at (p ++ u) (drop (length u) rest))
  unfolding decode
  decode_round fuel seek u w p rest lt e stop inside fits k ek =
      let (found, ef, em) = seek_percent_lem build str seek end (omega arith) room in
      let at : (if ltb end found then end else found) ≡ seek + length u = em ∙ stop in
      let gap : seek + length u - seek ≡ length u = omega arith in
      let part : slice str seek (length u) ≡ done u =
        rw (le→leb (seek + length u) (length str) inside, e, take_all u w) refl in
      rw (lt→ltb seek end lt, ef, ◌>>=◌, at, gap, part, put_lem p rest u fits)
        (ek (target_at (p ++ u) (drop (length u) rest)))

  escaped_lem :
      (at high low : ℕ) (x : Bytes)
      → drop at str ≡ b'%' ∷ high ∷ low ∷ x
      → escaped str at ≡ done (u8 (hex_value high * 16 + hex_value low))
  unfolding escaped
  escaped_lem at high low x e =
      let h : get_elem? str (at + 1) ≡ some high =
        get_elem?-drop at str 1 ∙ ap (λ s. get_elem? s 1) e in
      let l : get_elem? str (at + 2) ≡ some low =
        get_elem?-drop at str 2 ∙ ap (λ s. get_elem? s 2) e in
      rw (h, must, ◌>>=◌, l)
        (ap₂ (λ a b. done (u8 (a * 16 + b))) (hex2int_lem high) (hex2int_lem low))

  -- Every build decodes a value whose escapes are whole, behind what has been written, if sixteen
  -- bytes lie behind it and the result has room: an escape is the char of its two hexadecimal digits,
  -- each worth its place among the sixteen, in upper or in lower case; other chars in the place of a
  -- digit count as hex2int has it. Two rounds of the loop more than there are escapes are enough.
  pub decode_lem :
      (es : List Escape) (last : Bytes) (fuel seek : ℕ) (p rest tail : Bytes)
      → drop seek str ≡ encode_value es last ++ tail
      → seek + length (encode_value es last) ≡ end
      → IsValue es last
      → length (decode_value es last) ≤ length rest
      → length es + 2 ≤ fuel
      → decode build str fuel end seek (target_at p rest)
        ≡ done (target_at (p ++ decode_value es last) (drop (length (decode_value es last)) rest))
  unfolding decode
  decode_lem es last zero seek p rest tail e le ok fits more = absurd (omega arith)
  decode_lem es last (suc zero) seek p rest tail e le ok fits more = absurd (omega arith)
  decode_lem [] [] (suc (suc fuel)) seek p rest tail e le ok fits more =
      rw (le→not-ltb seek end (omega arith), append-nil p) refl
  decode_lem [] (b ∷ last) (suc (suc fuel)) seek p rest tail e le ok fits more =
      let u = b ∷ last in
      decode_round (suc fuel) seek u tail p rest (omega arith) e
        (omega (arith, ap (first_of b'%') e, first_of-append b'%' u tail ok)) (omega arith) fits
        done
        (λ t.
          rw (eq→== (seek + length u) end le, le→not-ltb (seek + length u) end (omega arith)) refl)
  decode_lem (x ∷ es) last (suc (suc fuel)) seek p rest tail e le ok fits more =
      let u = x.before in
      let c = u8 (hex_value x.high * 16 + hex_value x.low) in
      let w = b'%' ∷ x.high ∷ x.low ∷ (encode_value es last ++ tail) in
      let e' : drop seek str ≡ u ++ w =
        e ∙ append_assoc u (b'%' ∷ x.high ∷ x.low ∷ encode_value es last) tail in
      let at : drop (seek + length u) str ≡ w =
        sym (drop-drop (length u) seek str) ∙ (ap (drop (length u)) e' ∙ drop_all u w) in
      let behind : drop (seek + length u + 3) str ≡ encode_value es last ++ tail =
        sym (drop-drop 3 (seek + length u) str) ∙ ap (drop 3) at in
      let long = length-append u (b'%' ∷ x.high ∷ x.low ∷ encode_value es last) in
      let short = length-append u (c ∷ decode_value es last) in
      let inner : length (drop (length u) rest) ≡ length rest - length u =
        length-drop (length u) rest in
      decode_round (suc fuel) seek u w p rest (omega (arith, le, long)) e'
        (omega (arith, ap (first_of b'%') e', first_of-append b'%' u w ok.0, le, long))
        (omega (arith, le, long)) (omega (arith, fits, short))
        (λ t. put t (c ∷ []) >>= λ t. decode build str (suc fuel) end (seek + length u + 3) t)
        (λ t.
          rw
            (
              ne→not-== (seek + length u) end (λ q. omega (arith, q, le, long)),
              escaped_lem (seek + length u) x.high x.low (encode_value es last ++ tail) at,
            )
            refl)
      ∙ rw
          (
            put_lem (p ++ u) (drop (length u) rest) (c ∷ []) (omega (arith, fits, short, inner)),
            ◌>>=◌,
          )
          (decode_lem es last (suc fuel) (seek + length u + 3) ((p ++ u) ++ c ∷ [])
              (drop 1 (drop (length u) rest)) tail behind (omega (arith, le, long)) ok.1
              (omega (arith, fits, short, inner, length-drop 1 (drop (length u) rest)))
              (omega arith)
            ∙ ap done (target_joined p u c (decode_value es last) rest))
