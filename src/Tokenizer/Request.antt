-- ===== src/Tokenizer/Request.antt =====
-- src/utils/tokenizer.c, generate_res_in_place: the request that a form becomes.
use service_mesh_agent.Base.{
  ℕ, ◌+◌, ◌*◌, ◌-◌, ◌%◌, ◌^◌, ◌≤◌, ◌≡◌, refl, sym, ap, ◌∙◌, inl, inr, subst, List, [], ◌∷◌, ◌++◌,
  ◌==◌, if◌then◌else◌, Bytes, true, false, length, take, drop, arith, Exec, done, ◌>>=◌, slice,
  le→leb, append-nil, length-append, take_all, must, get_elem?, length-drop, some, none, Option,
  eq_bytes, codes, Bool-cases, map, drop-drop, drop_of_eq,
}
use service_mesh_agent.Base.Words.{u32}
use service_mesh_agent.Tokenizer.Simd.{plain}
use service_mesh_agent.Tokenizer.Offsets.{ends_from, at_key_end}
use service_mesh_agent.Tokenizer.Serialize.{Target, put, short_to_int, path_pairs}
use service_mesh_agent.Tokenizer.Decode.{target_at, put_lem, encode_value, target_append}
use service_mesh_agent.Tokenizer.Lookup.{
  Param, field_of, chosen, line_of, IsHeld, off_at, short_to_int_small, after_small,
  length-eq_bytes,
}

-- A step that writes `s`.
unfoldable pub Appends : (Target → Exec Target) → Bytes → Type 0
Appends op s =
    (p rest : Bytes)
    → length s ≤ length rest
    → op (target_at p rest) ≡ done (target_at (p ++ s) (drop (length s) rest))

pub Appends-put : (s : Bytes) → Appends (λ t. put t s) s
unfolding Appends
Appends-put s p rest h = put_lem p rest s h

pub Appends-then :
    (op op' : Target → Exec Target) (s s' : Bytes)
    → Appends op s
    → Appends op' s'
    → Appends (λ t. op t >>= op') (s ++ s')
unfolding Appends
Appends-then op op' s s' h h' p rest fits =
    let long = length-append s s' in
    rw
      (
        h p rest (omega (arith, long)),
        ◌>>=◌,
        h' (p ++ s) (drop (length s) rest) (omega (arith, long, length-drop (length s) rest)),
      )
      (ap done (target_append p s s' rest))

-- The dictionary that serialize_path_dict writes: the value as it is in the body.
abbrev pub path_of : Option Param → Bytes
path_of none = []
path_of (some p) = codes "{\"path\":\"" ++ (encode_value p.escapes p.last ++ codes "\"}\n")

-- The body of the request.
unfoldable pub request_body : List Param → Bytes
request_body ps =
    codes "\"2.0.1\"\n"
    ++ (line_of (chosen (codes "interface") ps)
        ++ (codes "null\n"
            ++ (line_of (chosen (codes "method") ps)
                ++ (line_of (chosen (codes "parameterTypesString") ps)
                    ++ (line_of (chosen (codes "parameter") ps)
                        ++ path_of (chosen (codes "interface") ps))))))

module _ (str : Bytes) (off : List ℕ) where
  key_test :
      (key k y : Bytes) (b : ℕ)
      → drop b str ≡ k ++ y
      → b + length k ≤ length str
      → (if b + length k == b + length key
          then (slice str b (length key) >>= λ r. done (eq_bytes key r))
          else done false)
        ≡ done (eq_bytes key k)
  key_test key k y b e in_str = elim (Bool-cases (length k == length key)) [
    | inl t ↦
        let same : length key ≡ length k = ground (arith, t) in
        let at : (b + length k == b + length key) ≡ true = ground (arith, t) in
        let read : take (length key) (k ++ y) ≡ k = ap (λ n. take n (k ++ y)) same ∙ take_all k y in
        rw (at, le→leb (b + length key) (length str) (omega arith), e, read, ◌>>=◌) refl
    | inr f ↦
        let other : (b + length k == b + length key) ≡ false = ground (arith, f) in
        rw (other, length-eq_bytes key k (λ q. ground (arith, q, f))) refl
  ]

  pub path_pairs_lem :
      (ps : List Param) (i prev b : ℕ)
      → drop (i * 2) off ≡ prev ∷ ends_from b (map field_of ps)
      → u32 (short_to_int prev + 1) ≡ b
      → IsHeld str b ps
      → Appends (path_pairs str off (length ps) i) (path_of (chosen (codes "interface") ps))
  unfolding path_pairs Appends
  path_pairs_lem [] i prev b eo ep at p rest fits = rw (append-nil p) refl
  path_pairs_lem (x ∷ xs) i prev b eo ep at p rest fits =
      let v = encode_value x.escapes x.last in
      let key_end = b + length x.key in
      let val_end = key_end + 1 + length v in
      let more = val_end ∷ ends_from (val_end + 1) (map field_of xs) in
      let o₀ : get_elem? off (i * 2) ≡ some prev =
        ap (get_elem? off) {x = i * 2} {y = i * 2 + 0} (omega arith)
        ∙ off_at plain str off (i * 2) 0 (prev ∷ key_end ∷ more) eo in
      let o₁ : get_elem? off (i * 2 + 1) ≡ some key_end =
        off_at plain str off (i * 2) 1 (prev ∷ key_end ∷ more) eo in
      let o₂ : get_elem? off (i * 2 + 2) ≡ some val_end =
        off_at plain str off (i * 2) 2 (prev ∷ key_end ∷ more) eo in
      let found =
        key_test (codes "interface") x.key (b'=' ∷ (v ++ at.0.0)) b at.0.1 (omega (arith, at.1)) in
      rw (o₀, must, ◌>>=◌, o₁, ep, short_to_int_small key_end (omega (arith, at.2)), found)
        (elim (Bool-cases (eq_bytes (codes "interface") x.key)) [
          | inl t ↦
              let fits' : length (path_of (some x)) ≤ length rest =
                subst
                  (λ z.
                    length (path_of (if z then some x else chosen (codes "interface") xs))
                    ≤ length rest)
                  t fits in
              let value : drop (key_end + 1) str ≡ v ++ at.0.0 =
                sym (drop-drop 1 key_end str)
                ∙ ap (drop 1) (at_key_end str (field_of x) b (v ++ at.0.0) at.0.1) in
              let beg : (key_end + 1) % 2 ^ 32 ≡ key_end + 1 = omega (arith, at.2) in
              let size : val_end - (key_end + 1) ≡ length v = omega arith in
              let in_str : key_end + 1 + length v ≤ length str = omega (arith, at.1) in
              rw
                (
                  t,
                  o₂,
                  must,
                  ◌>>=◌,
                  short_to_int_small val_end (omega (arith, at.2)),
                  beg,
                  size,
                  le→leb (key_end + 1 + length v) (length str) in_str,
                  value,
                  take_all v at.0.0,
                )
                (Appends-then (λ t. put t (codes "{\"path\":\""))
                  (λ t. put t v >>= λ t. put t (codes "\"}\n")) (codes "{\"path\":\"")
                  (v ++ codes "\"}\n") (Appends-put (codes "{\"path\":\""))
                  (Appends-then (λ t. put t v) (λ t. put t (codes "\"}\n")) v (codes "\"}\n")
                    (Appends-put v) (Appends-put (codes "\"}\n")))
                  p rest fits')
          | inr f ↦
              let fits' : length (path_of (chosen (codes "interface") xs)) ≤ length rest =
                subst
                  (λ z.
                    length (path_of (if z then some x else chosen (codes "interface") xs))
                    ≤ length rest)
                  f fits in
              let next : drop ((i + 1) * 2) off ≡ more =
                drop_of_eq {m = (i + 1) * 2} {n = i * 2 + 2} off (omega arith)
                ∙ (sym (drop-drop 2 (i * 2) off) ∙ ap (drop 2) eo) in
              rw (f) (
                path_pairs_lem xs (i + 1) val_end (val_end + 1) next
                  (after_small val_end (omega (arith, at.2))) at.3 p rest fits')
        ])
