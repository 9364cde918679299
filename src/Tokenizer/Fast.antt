-- ===== src/Tokenizer/Fast.antt =====
-- src/utils/tokenizer_fast_req.c: between the agents a request may travel as its parameter alone;
-- the provider's side makes the request of the dubbo protocol from it.
use service_mesh_agent.Base.{
  ℕ, ◌+◌, ◌-◌, ◌^◌, ltb, leb, Bytes, Exec, done, ◌>>=◌, require, slice, write, codes, take,
}
use service_mesh_agent.Codec.{int_to_four_char, long_to_8bytes}
use service_mesh_agent.Tokenizer.Serialize.{Target, put}
use service_mesh_agent.Tokenizer.Package.{header_bytes, method_detail_values_onea, path_dict}

unfoldable pub generate_fast_req_package_header : Bytes → ℕ → ℕ → Exec Bytes
generate_fast_req_package_header res body_len request_id = do
  res ← write res 0 (int_to_four_char body_len)
  write res 6 (long_to_8bytes request_id)

-- `len` is a short that is not negative.
unfoldable pub generate_fast_req_package_in_place : Bytes → Bytes → ℕ → ℕ → Exec Target
generate_fast_req_package_in_place res str len req_id = do
  _ ← require (ltb len (2 ^ 15))
  _ ← require (leb 136 len)
  parameter ← slice str 136 (len - 136)
  res ← write res 14 parameter
  res ← generate_fast_req_package_header res (len - 136) req_id
  done (record { res = res; offset = len - 136 + 14 })

unfoldable pub generate_dubbo_package : Bytes → Bytes → ℕ → Exec Target
generate_dubbo_package res fast_req_package fast_req_len = do
  res ← write res 0 (take 4 header_bytes)
  req_id ← slice fast_req_package 6 8
  res ← write res 4 req_id
  t ← put (record { res = res; offset = 16 }) method_detail_values_onea
  t ← put t (codes "\"")
  _ ← require (leb 14 fast_req_len)
  parameter ← slice fast_req_package 14 (fast_req_len - 14)
  t ← put t parameter
  t ← put t (codes "\"")
  t ← put t path_dict
  res ← write t.res 12 (int_to_four_char (t.offset - 16))
  done (record { res = res; offset = t.offset })
