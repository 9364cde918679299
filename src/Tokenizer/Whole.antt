-- ===== src/Tokenizer/Whole.antt =====
-- src/utils/tokenizer.c, generate_res_in_place on a form.
use service_mesh_agent.Base.{
  ℕ, suc, ◌+◌, ◌*◌, ◌-◌, ◌/◌, ◌^◌, ◌≤◌, ◌<◌, ◌≡◌, refl, sym, ap, ap₂, ◌∙◌, List, [], ◌∷◌, ◌++◌,
  get_or, Bytes, length, take, drop, arith, done, ◌>>=◌, le→leb, append_assoc, length-append,
  lt→ltb, length-drop, length-take, codes, map, drop-drop, drop_of_eq, drop_all, take-append-drop,
}
use service_mesh_agent.Codec.{int_to_four_char, long_to_8bytes, le_bytes}
use service_mesh_agent.Tokenizer.Simd.{Build}
use service_mesh_agent.Tokenizer.Offsets.{Field, IsForm, encode, ends_from}
use service_mesh_agent.Tokenizer.Split.{minus_one}
use service_mesh_agent.Tokenizer.Splits.{left_behind, length-left_behind, simd_split_efficient_lem}
use service_mesh_agent.Tokenizer.Serialize.{
  put, post_keys, serialize_pairs, serialize_str, path_pairs, serialize_path_dict,
}
use service_mesh_agent.Tokenizer.Decode.{target_at}
use service_mesh_agent.Tokenizer.Lookup.{
  Param, field_of, IsParams, chosen, line_of, IsHeld, held, serialize_pairs_lem,
}
use service_mesh_agent.Tokenizer.Request.{
  Appends, Appends-put, Appends-then, request_body, path_of, path_pairs_lem,
}
use service_mesh_agent.Tokenizer.Package.{
  generate_header, generate_body, generate_res_in_place, header_bytes,
}

length-ends_from : (b : ℕ) (ps : List Field) → length (ends_from b ps) ≡ 2 * length ps
length-ends_from b [] = refl
length-ends_from b (p ∷ ps) =
    omega (arith, length-ends_from (b + length p.key + 1 + length p.value + 1) ps)

length-map : (ps : List Param) → length (map field_of ps) ≡ length ps
length-map [] = refl
length-map (p ∷ ps) = ap suc (length-map ps)

-- The header of a request: magic, flags, the id, the length of the body.
abbrev pub header_of : ℕ → ℕ → Bytes
header_of body_len request_id =
    take 4 header_bytes ++ (long_to_8bytes request_id ++ int_to_four_char body_len)

pub length-header_of : (body_len request_id : ℕ) → length (header_of body_len request_id) ≡ 16
unfolding long_to_8bytes le_bytes
length-header_of body_len request_id = refl

pub generate_header_lem :
    (h x : Bytes) (body_len request_id : ℕ)
    → length h ≡ 16
    → generate_header (h ++ x) body_len request_id ≡ done (header_of body_len request_id ++ x)
unfolding generate_header long_to_8bytes le_bytes
generate_header_lem h x body_len request_id len =
    let d = drop 12 (h ++ x) in
    let long : length (h ++ x) ≡ 16 + length x = omega (arith, length-append h x) in
    let left : length d ≡ 4 + length x = omega (arith, length-drop 12 (h ++ x)) in
    let behind : drop 4 d ≡ x =
      drop-drop 4 12 (h ++ x)
      ∙ (drop_of_eq {m = 12 + 4} {n = length h} (h ++ x) (omega arith) ∙ drop_all h x) in
    let with_id = take 4 header_bytes ++ (long_to_8bytes request_id ++ d) in
    rw
      (
        le→leb 12 (length (h ++ x)) (omega arith),
        ◌>>=◌,
        le→leb 12 (length (header_bytes ++ d)) (omega arith),
        le→leb 16 (length with_id) (omega arith),
        behind,
      )
      refl

module _ (str : Bytes) (ps : List Param) (at : IsHeld str 0 ps) (ok : IsParams ps) where
  off : List ℕ
  off = minus_one ∷ ends_from 0 (map field_of ps)

  half : length off / 2 ≡ length ps
  unfolding off
  half = omega (arith, length-ends_from 0 (map field_of ps), length-map ps)

  serialize_str_lem :
      (build : Build) (j c : ℕ) (cs : Bytes)
      → get_or post_keys j [] ≡ c ∷ cs
      → Appends (λ t. serialize_str build str off (length off) t j) (line_of (chosen (c ∷ cs) ps))
  unfolding serialize_str off Appends
  serialize_str_lem build j c cs ek p rest fits =
      ap (λ n. serialize_pairs build str off j n 0 (target_at p rest)) half
      ∙ serialize_pairs_lem build str off j c cs ps 0 minus_one 0 p rest ek refl refl at ok fits

  serialize_path_dict_lem :
      Appends
        (λ t. serialize_path_dict str off (length off) t)
        (path_of (chosen (codes "interface") ps))
  unfolding serialize_path_dict off Appends
  serialize_path_dict_lem p rest fits =
      ap (λ n. path_pairs str off n 0 (target_at p rest)) half
      ∙ path_pairs_lem str off ps 0 minus_one 0 refl refl at p rest fits

  body-Appends :
      (build : Build)
      → Appends
          (λ t. put t (codes "\"2.0.1\"\n") >>= λ t.
            serialize_str build str off (length off) t 0 >>= λ t. put t (codes "null\n") >>= λ t.
            serialize_str build str off (length off) t 1 >>= λ t.
            serialize_str build str off (length off) t 2 >>= λ t.
            serialize_str build str off (length off) t 3 >>= λ t.
            serialize_path_dict str off (length off) t)
          (request_body ps)
  unfolding request_body
  body-Appends build = Appends-then _ _ _ _ (Appends-put (codes "\"2.0.1\"\n")) (
      Appends-then _ _ _ _ (serialize_str_lem build 0 b'i' (codes "nterface") refl) (
        Appends-then _ _ _ _ (Appends-put (codes "null\n")) (
          Appends-then _ _ _ _ (serialize_str_lem build 1 b'm' (codes "ethod") refl) (
            Appends-then _ _ _ _ (serialize_str_lem build 2 b'p' (codes "arameterTypesString") refl)
              (Appends-then _ _ _ _ (serialize_str_lem build 3 b'p' (codes "arameter") refl)
                serialize_path_dict_lem)))))

  body_lem :
      (build : Build) (res : Bytes)
      → 16 + length (request_body ps) ≤ length res
      → generate_body build res str off
        ≡ done (
            target_at
              (take 16 res ++ request_body ps)
              (drop (length (request_body ps)) (drop 16 res)))
  unfolding generate_body Appends
  body_lem build res fits =
      let six : length (take 16 res) ≡ 16 = omega (arith, length-take 16 res) in
      let start : record { res = res; offset = 16 } ≡ target_at (take 16 res) (drop 16 res) =
        ap₂ (λ r o. record { res = r; offset = o }) (sym (take-append-drop 16 res)) (sym six) in
      rw (start)
        (body-Appends build (take 16 res) (drop 16 res) (omega (arith, length-drop 16 res)))

-- In every build a form of at most 15 fields becomes the request with the decoded values of its four
-- keys, the id and the length of the body, if the escapes of the form are whole, sixteen bytes lie
-- behind it, its memory is shorter than 2 ^ 15 bytes and the request has room. The memory of the form
-- is as before, but in a build with BMI the sixteen bytes behind it are zero.
pub generate_res_in_place_lem :
    (build : Build) (res rest : Bytes) (p : Param) (ps : List Param) (req_id : ℕ)
    → IsForm (map field_of (p ∷ ps))
    → IsParams (p ∷ ps)
    → length (p ∷ ps) ≤ 15
    → 16 ≤ length rest
    → length (encode (map field_of (p ∷ ps)) ++ rest) < 2 ^ 15
    → 16 + length (request_body (p ∷ ps)) ≤ length res
    → generate_res_in_place build res
        (encode (map field_of (p ∷ ps)) ++ rest)
        (length (encode (map field_of (p ∷ ps))))
        req_id
      ≡ done (
        encode (map field_of (p ∷ ps)) ++ left_behind build rest,
        target_at
            (header_of (length (request_body (p ∷ ps))) req_id ++ request_body (p ∷ ps))
            (drop (length (request_body (p ∷ ps))) (drop 16 res)),
      )
unfolding generate_res_in_place off
generate_res_in_place_lem build res rest p ps req_id form ok few room short fits =
    let text = encode (map field_of (p ∷ ps)) in
    let body = request_body (p ∷ ps) in
    let behind = left_behind build rest in
    let same = length-left_behind build rest room in
    let at : IsHeld (text ++ behind) 0 (p ∷ ps) =
      held (text ++ behind) behind p ps 0 refl (omega (arith, same))
        (omega (arith, same, length-append text rest, length-append text behind)) in
    let tail = drop (length body) (drop 16 res) in
    let six : length (take 16 res) ≡ 16 = omega (arith, length-take 16 res) in
    let split =
      simd_split_efficient_lem (field_of p) (map field_of ps) rest room form
        (omega (arith, length-map ps)) (omega (arith, length-append text rest)) build in
    let size : length (take 16 res ++ body) - 16 ≡ length body =
      omega (arith, length-append (take 16 res) body) in
    rw
      (
        lt→ltb (length text) (2 ^ 15) (omega (arith, length-append text rest)),
        ◌>>=◌,
        split,
        body_lem (text ++ behind) (p ∷ ps) at ok build res fits,
        size,
      )
      (rw
        (
          append_assoc (take 16 res) body tail,
          generate_header_lem (take 16 res) (body ++ tail) (length body) req_id six,
          ◌>>=◌,
        )
        (ap₂ (λ r o. done (text ++ behind, record { res = r; offset = o }))
          (sym (append_assoc (header_of (length body) req_id) body tail))
          (omega (
            arith,
            six,
            length-append (take 16 res) body,
            length-append (header_of (length body) req_id) body,
            length-header_of (length body) req_id,
          ))))
