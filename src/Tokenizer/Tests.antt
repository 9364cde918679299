-- ===== src/Tokenizer/Tests.antt =====
-- src/utils/tokenizer.c on concrete bodies.
use service_mesh_agent.Base.{
  ◌+◌, ◌≤◌, arith, drop, map, [], ◌∷◌, ◌++◌, ◌≡◌, refl, Bytes, Exec, done, ◌>>=◌, codes, replicate,
  take, length, length-replicate, ℕ,
}
use service_mesh_agent.Codec.{long_to_8bytes, le_bytes}
use service_mesh_agent.Tokenizer.Simd.{
  Build, bmi, sse42, plain, find, find_until, advance, match_mask, zero_lanes,
  tzcnt_u32_using_popcnt_cmpgt, serial_find, serial_find_until,
}
use service_mesh_agent.Tokenizer.Split.{
  minus_one, serial_split, serial_loop, push_off, simd_split_efficient, sse4_split_efficient,
  simd_loop,
}
use service_mesh_agent.Tokenizer.Serialize.{
  serialize_str, serialize_path_dict, path_pairs, Target, serialize_pairs, is_key, decode, escaped,
  hex2int, seek_percent, put,
}
use service_mesh_agent.Tokenizer.Offsets.{IsForm, encode, ends_from, lacks, lacks-Lacks}
use service_mesh_agent.Tokenizer.Splits.{left_behind, simd_split_efficient_lem}
use service_mesh_agent.Tokenizer.Decode.{target_at, decode_value, decode_lem}
use service_mesh_agent.Tokenizer.Lookup.{Param, field_of, IsParams}
use service_mesh_agent.Tokenizer.Request.{request_body}
use service_mesh_agent.Tokenizer.Whole.{header_of, generate_res_in_place_lem}
use service_mesh_agent.Tokenizer.Fixed.{fixed_body}
use service_mesh_agent.Tokenizer.FastRequest.{generate_dubbo_package-fast}
use service_mesh_agent.Tokenizer.Fast.{generate_fast_req_package_in_place, generate_dubbo_package}
use service_mesh_agent.Tokenizer.Package.{
  generate_res_in_place_hard_code, generate_res_in_place, generate_header, generate_body,
}

abbrev form : Bytes
form = codes "interface=a.b&method=hash&parameterTypesString=L%3B&parameter=x%2fyy"

abbrev sent : Build → Exec Bytes
sent build =
    generate_res_in_place build (replicate 200 7) (form ++ replicate 32 9) (length form) 258
    >>= λ r. done (take r.1.offset r.1.res)

serial_offsets : serial_split (codes "ab=c&d=ef") 9 ≡ done (65535 ∷ 2 ∷ 4 ∷ 6 ∷ 9 ∷ [])
unfolding serial_split serial_loop serial_find serial_find_until push_off
serial_offsets = refl

same_request : sent sse42 ≡ sent plain
unfolding generate_res_in_place generate_header generate_body serialize_str serialize_path_dict
    path_pairs serialize_pairs is_key decode escaped hex2int seek_percent put simd_split_efficient
    sse4_split_efficient simd_loop serial_split serial_loop find find_until advance match_mask
    zero_lanes tzcnt_u32_using_popcnt_cmpgt serial_find serial_find_until push_off
same_request = refl

request_bytes :
    sent sse42
    ≡ done (
        (0xda ∷ 0xbb ∷ 0xc6 ∷ 0 ∷ 2 ∷ 1 ∷ 0 ∷ 0 ∷ 0 ∷ 0 ∷ 0 ∷ 0 ∷ 0 ∷ 0 ∷ 0 ∷ 53 ∷ [])
        ++ codes "\"2.0.1\"\n\"a.b\"\nnull\n\"hash\"\n\"L;\"\n\"x/yy\"\n{\"path\":\"a.b\"}\n")
unfolding long_to_8bytes le_bytes generate_res_in_place generate_header generate_body serialize_str
    serialize_path_dict path_pairs serialize_pairs is_key decode escaped hex2int seek_percent put
    simd_split_efficient sse4_split_efficient simd_loop serial_split serial_loop find find_until
    advance match_mask zero_lanes tzcnt_u32_using_popcnt_cmpgt serial_find serial_find_until
    push_off
request_bytes = refl

abbrev interface_field : Param
interface_field = record {
  key = codes "interface";
  escapes = record { before = codes "a"; high = b'2'; low = b'F' } ∷ [];
  last = codes "b";
}

abbrev method_field : Param
method_field = record { key = codes "method"; escapes = []; last = codes "hash" }

abbrev text : Bytes
text = encode (map field_of (interface_field ∷ method_field ∷ []))

text-IsForm : IsForm (map field_of (interface_field ∷ method_field ∷ []))
unfolding lacks
text-IsForm = (
  lacks-Lacks b'=' (codes "interface") refl,
  lacks-Lacks b'&' (codes "a%2Fb") refl,
  (lacks-Lacks b'=' (codes "method") refl, lacks-Lacks b'&' (codes "hash") refl, tt),
)

text-IsParams : IsParams (interface_field ∷ method_field ∷ [])
unfolding lacks
text-IsParams = (
  (lacks-Lacks b'%' (codes "a") refl, lacks-Lacks b'%' (codes "b") refl),
  (lacks-Lacks b'%' (codes "hash") refl, tt),
)

abbrev fresh : Bytes
fresh = replicate 100 7

abbrev behind : Bytes
behind = replicate 20 9

simd_split_efficient_lem_example :
    simd_split_efficient bmi (text ++ behind) (length text)
    ≡ done (
      text ++ left_behind bmi behind,
      minus_one ∷ ends_from 0 (map field_of (interface_field ∷ method_field ∷ [])),
    )
simd_split_efficient_lem_example =
    simd_split_efficient_lem (field_of interface_field) (field_of method_field ∷ []) behind
      (omega arith) text-IsForm (omega arith) (omega arith) bmi

decode_lem_example :
    decode plain (codes "x=a%2Fb" ++ behind) 9 7 2 (target_at (codes "{") behind)
    ≡ done (
        target_at
          (codes "{" ++ decode_value interface_field.escapes interface_field.last)
          (drop (length (decode_value interface_field.escapes interface_field.last)) behind))
decode_lem_example =
    decode_lem plain (codes "x=a%2Fb" ++ behind) 7 (omega arith) interface_field.escapes
      interface_field.last 9 2 (codes "{") behind behind refl refl text-IsParams.0 (omega arith)
      (omega arith)

request_fits : 16 + length (request_body (interface_field ∷ method_field ∷ [])) ≤ length fresh
unfolding request_body
request_fits = omega arith

generate_res_in_place_lem_example :
    generate_res_in_place sse42 fresh (text ++ behind) (length text) 258
    ≡ done (
      text ++ behind,
      target_at
          (header_of (length (request_body (interface_field ∷ method_field ∷ []))) 258
            ++ request_body (interface_field ∷ method_field ∷ []))
          (drop (length (request_body (interface_field ∷ method_field ∷ []))) (drop 16 fresh)),
    )
generate_res_in_place_lem_example =
    generate_res_in_place_lem sse42 fresh behind interface_field (method_field ∷ []) 258 text-IsForm
      text-IsParams (omega arith) (omega arith) (omega arith) request_fits

abbrev front : Bytes
front = replicate 136 1

abbrev fast_package : Bytes
fast_package = replicate 64 0

abbrev large : Bytes
large = replicate 256 0

room_for_fixed : 16 + length (fixed_body (codes "abc")) ≤ length large
unfolding fixed_body
room_for_fixed = omega arith

generate_dubbo_package-fast_example :
    (fast : Target) × (generate_fast_req_package_in_place fast_package
        (front ++ (codes "abc" ++ behind))
        (136 + 3)
        258
      ≡ done fast)
    × (generate_dubbo_package large fast.res fast.offset
        ≡ generate_res_in_place_hard_code large (front ++ (codes "abc" ++ behind)) (136 + 3) 258)
    × (generate_dubbo_package large fast.res fast.offset
        ≡ done (
            target_at
              (header_of (length (fixed_body (codes "abc"))) 258 ++ fixed_body (codes "abc"))
              (drop (length (fixed_body (codes "abc"))) (drop 16 large))))
generate_dubbo_package-fast_example =
    generate_dubbo_package-fast front (codes "abc") behind (length-replicate {A = ℕ} 136 1)
      (omega arith) fast_package large 258 (omega arith) room_for_fixed
