-- ===== src/Tokenizer/Lookup.antt =====
-- src/utils/tokenizer.c, serialize_str and serialize_path_dict: which field of a form is written.
use service_mesh_agent.Base.{
  ℕ, suc, ◌+◌, ◌*◌, ◌%◌, ◌^◌, ◌≤◌, ◌<◌, ◌≡◌, ◌≢◌, refl, sym, ap, ◌∙◌, inl, inr, List, [], ◌∷◌, ◌++◌,
  ◌==◌, if◌then◌else◌, Bytes, true, false, length, take, drop, arith, done, ◌>>=◌, le→leb,
  append_assoc, append-nil, length-append, take_all, must, get_elem?, get_or, lt→ltb, ne→not-==,
  get_elem?-drop, length-drop, some, none, Option, eq_bytes, codes, Bool-cases, map, drop-drop,
  drop_of_eq, subst,
}
use service_mesh_agent.Base.Words.{u32}
use service_mesh_agent.Tokenizer.Simd.{Build}
use service_mesh_agent.Tokenizer.Offsets.{
  Field, encode, ends_from, at_key_end, at_val_end, encode-append,
}
use service_mesh_agent.Tokenizer.Serialize.{
  put, post_keys, short_to_int, is_key, decode, serialize_pairs,
}
use service_mesh_agent.Tokenizer.Decode.{
  target_at, put_lem, Escape, encode_value, decode_value, IsValue, decode_lem, target_append,
  escapes_short,
}

pub length-eq_bytes : (a b : Bytes) → length a ≢ length b → eq_bytes a b ≡ false
length-eq_bytes [] [] h = absurd (h refl)
length-eq_bytes [] (b ∷ ys) h = refl
length-eq_bytes (a ∷ xs) [] h = refl
length-eq_bytes (a ∷ xs) (b ∷ ys) h =
    let rest = length-eq_bytes xs ys (λ e. h (ap suc e)) in
    elim (Bool-cases (a == b)) [ inl t ↦ rw (t, rest) refl | inr f ↦ rw (f) refl ]

module _ (build : Build) (str : Bytes) where
  first_byte : (beg b : ℕ) (x : Bytes) → drop beg str ≡ b ∷ x → get_elem? str beg ≡ some b
  first_byte beg b x e =
      ap (get_elem? str) {x = beg} {y = beg + 0} (omega arith)
      ∙ (get_elem?-drop beg str 0 ∙ ap (λ s. get_elem? s 0) e)

  -- The test on a key is equality with it.
  is_key_lem :
      (c : ℕ) (cs k y : Bytes) (beg : ℕ)
      → drop beg str ≡ k ++ b'=' ∷ y
      → is_key build str (c ∷ cs) beg (beg + length k) ≡ done (eq_bytes (c ∷ cs) k)
  unfolding is_key
  is_key_lem c cs [] y beg e =
      let short : (beg + 0 == beg + suc (length cs)) ≡ false =
        ne→not-== (beg + 0) (beg + suc (length cs)) (λ q. omega (arith, q)) in
      rw (first_byte beg b'=' y e, must, ◌>>=◌, short)
        (elim (Bool-cases (c == b'=')) [ inl t ↦ rw (t) refl | inr f ↦ rw (f) refl ])
  is_key_lem c cs (d ∷ k) y beg e = elim (Bool-cases (c == d)) [
    | inr f ↦ rw (first_byte beg d (k ++ b'=' ∷ y) e, must, ◌>>=◌, f) refl
    | inl t ↦ elim (Bool-cases (length k == length cs)) [
      | inr f ↦
          let other : (beg + suc (length k) == beg + suc (length cs)) ≡ false = ground (arith, f) in
          let differ : eq_bytes cs k ≡ false = length-eq_bytes cs k (λ q. ground (arith, q, f)) in
          rw (first_byte beg d (k ++ b'=' ∷ y) e, must, ◌>>=◌, t, other, differ) refl
      | inl s ↦
          let same : length cs ≡ length k = ground (arith, s) in
          let at : (beg + suc (length k) == beg + suc (length cs)) ≡ true = ground (arith, s) in
          let in_str : beg + suc (length cs) ≤ length str =
            omega (arith, same, ap length e, length-append k (b'=' ∷ y), length-drop beg str) in
          let read : take (length cs) (k ++ b'=' ∷ y) ≡ k =
            ap (λ n. take n (k ++ b'=' ∷ y)) same ∙ take_all k (b'=' ∷ y) in
          rw
            (
              first_byte beg d (k ++ b'=' ∷ y) e,
              must,
              ◌>>=◌,
              t,
              at,
              le→leb (beg + suc (length cs)) (length str) in_str,
              e,
              read,
              t,
            )
            refl
    ]
  ]

-- A field as it was meant: its value with the escapes told apart.
pub record Param : Type 0 where
  pub key : Bytes
  pub escapes : List Escape
  pub last : Bytes

abbrev pub field_of : Param → Field
field_of p = record { key = p.key; value = encode_value p.escapes p.last }

abbrev pub IsParams : List Param → Type 0
IsParams [] = Unit
IsParams (p ∷ ps) = IsValue p.escapes p.last × IsParams ps

-- The first field with the key.
abbrev pub chosen : Bytes → List Param → Option Param
chosen key [] = none
chosen key (p ∷ ps) = if eq_bytes key p.key then some p else chosen key ps

-- The line that serialize_str writes for a key.
abbrev pub line_of : Option Param → Bytes
line_of none = []
line_of (some p) = codes "\"" ++ (decode_value p.escapes p.last ++ codes "\"\n")

-- The fields as they lie in the memory from `b` on, with room behind each for a vector.
abbrev pub IsHeld : Bytes → ℕ → List Param → Type 0
IsHeld str b [] = Unit
IsHeld str b (p ∷ ps) =
    let val_end = b + length p.key + 1 + length (encode_value p.escapes p.last) in
    ((x : Bytes) × (drop b str ≡ p.key ++ b'=' ∷ (encode_value p.escapes p.last ++ x)))
    × (val_end + 16 ≤ length str)
    × (val_end + 1 < 2 ^ 15)
    × IsHeld str (val_end + 1) ps

pub held :
    (str : Bytes) (tail : Bytes) (p : Param) (ps : List Param) (b : ℕ)
    → drop b str ≡ encode (map field_of (p ∷ ps)) ++ tail
    → 16 ≤ length tail
    → length str < 2 ^ 15
    → IsHeld str b (p ∷ ps)
held str tail p [] b e room short =
    let v = encode_value p.escapes p.last in
    let e' : drop b str ≡ p.key ++ b'=' ∷ (v ++ tail) = e ∙ append_assoc p.key (b'=' ∷ v) tail in
    let long = length-append p.key (b'=' ∷ (v ++ tail)) in
    (
      (tail, e'),
      omega (arith, ap length e', long, length-append v tail, length-drop b str),
      omega (arith, ap length e', long, length-append v tail, length-drop b str),
      tt,
    )
held str tail p (q ∷ ps) b e room short =
    let v = encode_value p.escapes p.last in
    let rest = encode (map field_of (q ∷ ps)) ++ tail in
    let val_end = b + length p.key + 1 + length v in
    let e' : drop b str ≡ p.key ++ b'=' ∷ (v ++ b'&' ∷ rest) =
      e ∙ encode-append (field_of p) (field_of q) (map field_of ps) tail in
    let at = at_val_end str (field_of p) b (v ++ b'&' ∷ rest) e' (b'&' ∷ rest) refl in
    let next : drop (val_end + 1) str ≡ rest = sym (drop-drop 1 val_end str) ∙ ap (drop 1) at in
    let long = length-append (encode (map field_of (q ∷ ps))) tail in
    (
      (b'&' ∷ rest, e'),
      omega (arith, ap length at, length-drop val_end str, long),
      omega (arith, ap length at, length-drop val_end str, long),
      held str tail q ps (val_end + 1) next room short,
    )

pub short_to_int_small : (n : ℕ) → n < 2 ^ 15 → short_to_int n ≡ n
short_to_int_small n h = rw (lt→ltb n (2 ^ 15) h) refl

pub after_small : (n : ℕ) → n < 2 ^ 15 → u32 (short_to_int n + 1) ≡ n + 1
after_small n h = rw (short_to_int_small n h) (omega arith)

module _ (build : Build) (str : Bytes) where
  -- A quoted value.
  writes_line :
      (x : Param) (seek end : ℕ) (p rest y : Bytes)
      → drop seek str ≡ encode_value x.escapes x.last ++ y
      → seek + length (encode_value x.escapes x.last) ≡ end
      → end + 16 ≤ length str
      → IsValue x.escapes x.last
      → length (line_of (some x)) ≤ length rest
      → (put (target_at p rest) (codes "\"") >>= λ t.
          decode build str (suc (length str)) end seek t >>= λ t. put t (codes "\"\n"))
        ≡ done (target_at (p ++ line_of (some x)) (drop (length (line_of (some x))) rest))
  writes_line x seek end p rest y e le room ok fits =
      let d = decode_value x.escapes x.last in
      let quote = codes "\"" in
      let close = codes "\"\n" in
      let long = length-append d close in
      let r₁ = drop 1 rest in
      let l₁ = length-drop 1 rest in
      rw
        (
          put_lem p rest quote (omega (arith, long)),
          ◌>>=◌,
          decode_lem build str end room x.escapes x.last (suc (length str)) seek (p ++ quote) r₁ y e
              le ok (omega (arith, long, l₁)) (omega (arith, escapes_short x.escapes x.last)),
          put_lem ((p ++ quote) ++ d) (drop (length d) r₁) close
              (omega (arith, long, l₁, length-drop (length d) r₁)),
        )
        (ap done (target_append (p ++ quote) d close r₁ ∙ target_append p quote (d ++ close) rest))

module _ (build : Build) (str : Bytes) (off : List ℕ) where
  pub off_at : (n k : ℕ) (l : List ℕ) → drop n off ≡ l → get_elem? off (n + k) ≡ get_elem? l k
  off_at n k l e = get_elem?-drop n off k ∙ ap (λ s. get_elem? s k) e

  -- serialize_str writes the line of the first field with the key, or nothing.
  pub serialize_pairs_lem :
      (j c : ℕ) (cs : Bytes) (ps : List Param) (i prev b : ℕ) (p rest : Bytes)
      → get_or post_keys j [] ≡ c ∷ cs
      → drop (i * 2) off ≡ prev ∷ ends_from b (map field_of ps)
      → u32 (short_to_int prev + 1) ≡ b
      → IsHeld str b ps
      → IsParams ps
      → length (line_of (chosen (c ∷ cs) ps)) ≤ length rest
      → serialize_pairs build str off j (length ps) i (target_at p rest)
        ≡ done (
            target_at
              (p ++ line_of (chosen (c ∷ cs) ps))
              (drop (length (line_of (chosen (c ∷ cs) ps))) rest))
  unfolding serialize_pairs
  serialize_pairs_lem j c cs [] i prev b p rest ek eo ep at ok fits = rw (append-nil p) refl
  serialize_pairs_lem j c cs (x ∷ xs) i prev b p rest ek eo ep at ok fits =
      let v = encode_value x.escapes x.last in
      let key_end = b + length x.key in
      let val_end = key_end + 1 + length v in
      let more = val_end ∷ ends_from (val_end + 1) (map field_of xs) in
      let o₀ : get_elem? off (i * 2) ≡ some prev =
        ap (get_elem? off) {x = i * 2} {y = i * 2 + 0} (omega arith)
        ∙ off_at (i * 2) 0 (prev ∷ key_end ∷ more) eo in
      let o₁ : get_elem? off (i * 2 + 1) ≡ some key_end =
        off_at (i * 2) 1 (prev ∷ key_end ∷ more) eo in
      let o₂ : get_elem? off (i * 2 + 2) ≡ some val_end =
        off_at (i * 2) 2 (prev ∷ key_end ∷ more) eo in
      let found = is_key_lem build str c cs x.key (v ++ at.0.0) b at.0.1 in
      rw (o₀, must, ◌>>=◌, o₁, ek, ep, short_to_int_small key_end (omega (arith, at.2)), found)
        (elim (Bool-cases (eq_bytes (c ∷ cs) x.key)) [
          | inl t ↦
              let fits' : length (line_of (some x)) ≤ length rest =
                subst
                  (λ z. length (line_of (if z then some x else chosen (c ∷ cs) xs)) ≤ length rest) t
                  fits in
              let value : drop (key_end + 1) str ≡ v ++ at.0.0 =
                sym (drop-drop 1 key_end str)
                ∙ ap (drop 1) (at_key_end str (field_of x) b (v ++ at.0.0) at.0.1) in
              let beg : (key_end + 1) % 2 ^ 32 ≡ key_end + 1 = omega (arith, at.2) in
              rw (t, o₂, must, ◌>>=◌, short_to_int_small val_end (omega (arith, at.2)), beg)
                (writes_line build str x (key_end + 1) val_end p rest at.0.0 value refl at.1 ok.0
                  fits')
          | inr f ↦
              let fits' : length (line_of (chosen (c ∷ cs) xs)) ≤ length rest =
                subst
                  (λ z. length (line_of (if z then some x else chosen (c ∷ cs) xs)) ≤ length rest) f
                  fits in
              let next : drop ((i + 1) * 2) off ≡ more =
                drop_of_eq {m = (i + 1) * 2} {n = i * 2 + 2} off (omega arith)
                ∙ (sym (drop-drop 2 (i * 2) off) ∙ ap (drop 2) eo) in
              rw (f) (
                serialize_pairs_lem j c cs xs (i + 1) val_end (val_end + 1) p rest ek next
                  (after_small val_end (omega (arith, at.2))) at.3 ok.1 fits')
        ])
