-- ===== src/Tokenizer/Package.antt =====
-- src/utils/tokenizer.c, a whole request of the dubbo protocol: 16 bytes of header, in it the number
-- of the request and the length of the body, then the body.
use service_mesh_agent.Base.{
  ℕ, ◌-◌, ◌^◌, List, [], ◌∷◌, ltb, leb, Bytes, Exec, done, ◌>>=◌, require, slice, write, length,
  codes,
}
use service_mesh_agent.Codec.{int_to_four_char, long_to_8bytes}
use service_mesh_agent.Tokenizer.Simd.{Build}
use service_mesh_agent.Tokenizer.Split.{simd_split_efficient}
use service_mesh_agent.Tokenizer.Serialize.{Target, put, serialize_str, serialize_path_dict}

abbrev pub header_bytes : Bytes
header_bytes = 0xda ∷ 0xbb ∷ 0xc6 ∷ 0 ∷ 0 ∷ 0 ∷ 0 ∷ 0 ∷ 0 ∷ 0 ∷ 0 ∷ 0 ∷ []

-- The last four bytes are stored one by one, as those of int_to_four_char.
unfoldable pub generate_header : Bytes → ℕ → ℕ → Exec Bytes
generate_header res body_len request_id = do
  res ← write res 0 header_bytes
  res ← write res 4 (long_to_8bytes request_id)
  write res 12 (int_to_four_char body_len)

unfoldable pub generate_body : Build → Bytes → Bytes → List ℕ → Exec Target
generate_body build res str off = do
  let len_off = length off
  t ← put (record { res = res; offset = 16 }) (codes "\"2.0.1\"\n")
  t ← serialize_str build str off len_off t 0
  t ← put t (codes "null\n")
  t ← serialize_str build str off len_off t 1
  t ← serialize_str build str off len_off t 2
  t ← serialize_str build str off len_off t 3
  serialize_path_dict str off len_off t

-- `len` is a short that is not negative. The results are what `str` holds afterwards, and the
-- request with its size.
unfoldable pub generate_res_in_place : Build → Bytes → Bytes → ℕ → ℕ → Exec (Bytes × Target)
generate_res_in_place build res str len req_id = do
  _ ← require (ltb len (2 ^ 15))
  split ← simd_split_efficient build str len
  t ← generate_body build res split.0 split.1
  res ← generate_header t.res (t.offset - 16) req_id
  done (split.0, record { res = res; offset = t.offset })

abbrev pub method_detail_values_onea : Bytes
method_detail_values_onea =
    codes
      "\"2.0.1\"\n\"com.alibaba.dubbo.performance.demo.provider.IHelloService\"\nnull\n\"hash\"\n\"Ljava/lang/String;\"\n"

-- hard_code_values[3], and method_detail_path of tokenizer_fast_req.c
abbrev pub path_dict : Bytes
path_dict = codes "\n{\"path\":\"com.alibaba.dubbo.performance.demo.provider.IHelloService\"}\n"

unfoldable pub generate_body_hard_code : Bytes → Bytes → Exec Target
generate_body_hard_code res parameter = do
  t ← put (record { res = res; offset = 16 }) method_detail_values_onea
  t ← put t (codes "\"")
  t ← put t parameter
  t ← put t (codes "\"")
  put t path_dict

-- The parameter begins at 136 in the only form that the benchmark sends. `len` is a short that is not
-- negative.
unfoldable pub generate_res_in_place_hard_code : Bytes → Bytes → ℕ → ℕ → Exec Target
generate_res_in_place_hard_code res str len req_id = do
  _ ← require (ltb len (2 ^ 15))
  _ ← require (leb 136 len)
  parameter ← slice str 136 (len - 136)
  t ← generate_body_hard_code res parameter
  res ← generate_header t.res (t.offset - 16) req_id
  done (record { res = res; offset = t.offset })
