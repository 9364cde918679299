-- ===== src/Registry/Etcd.antt =====
-- src/utils/etcd.c. curl, jsmn and base64 are parameters: `perform` takes the url and the fields of a
-- POST, `jsmn_parse` the JSON text.
use service_mesh_agent.Base.{
  ℕ, ◌-◌, List, [], ◌∷◌, ◌++◌, ltb, ◌==◌, ◌&&◌, Bool, if◌then◌else◌, Bytes, Exec, done, ◌>>=◌, must,
  require, get_elem?, length, slice, codes, eq_bytes, Option, none, some, true, false,
}
use service_mesh_agent.Text.{decimal}

-- Of a `jsmntok_t`: whether its type is JSMN_STRING, and where it lies in the text.
pub record Token : Type 0 where
  pub is_string : Bool
  pub start : ℕ
  pub end : ℕ

-- What curl_easy_perform comes to: CURLE_OK or not, and the pieces that it has given to writefunc.
pub record Response : Type 0 where
  pub ok : Bool
  pub pieces : List Bytes

unfoldable pub init_string : Bytes
init_string = []

-- The text so far, its final 0 left out, and a piece.
unfoldable pub writefunc : Bytes → Bytes → Bytes
writefunc s piece = s ++ piece

unfoldable pub body : Bytes → List Bytes → Bytes
unfolding writefunc
body s [] = s
body s (p ∷ ps) = body (writefunc s p) ps

unfoldable pub json_token_to_str : Bytes → Token → Exec Bytes
json_token_to_str json tok = slice json tok.start (tok.end - tok.start)

-- 0 in the source is `true` here.
unfoldable pub jsoneq : Bytes → Token → Bytes → Exec Bool
jsoneq json tok s =
    if tok.is_string && (tok.end - tok.start == length s)
    then (slice json tok.start (length s) >>= λ t. done (eq_bytes t s))
    else done false

-- The token behind the first that is the string `name`; one behind the last is not initialised.
unfoldable pub value_of : Bytes → Bytes → List Token → Exec (Option Bytes)
unfolding jsoneq json_token_to_str
value_of json name [] = done none
value_of json name (t ∷ ts) = jsoneq json t name >>= λ found.
    if found
    then (must (get_elem? ts 0) >>= λ v. json_token_to_str json v >>= λ s. done (some s))
    else value_of json name ts

-- The size of the array of init_consumer.
abbrev pub maximum_endpoint_servers : ℕ
maximum_endpoint_servers = 16

-- The decoded values of every string `key`, stored into an array of `slots` pointers; one more is
-- written behind it. `skip` is the second `i++`.
unfoldable pub keys_of :
    ℕ → (Bytes → Bytes) → Bytes → Bool → List Token → List Bytes → Exec (List Bytes)
unfolding jsoneq json_token_to_str
keys_of slots b64_decode json skip [] found = done found
keys_of slots b64_decode json true (t ∷ ts) found = keys_of slots b64_decode json false ts found
keys_of slots b64_decode json false (t ∷ ts) found = jsoneq json t (codes "key") >>= λ is_key.
    if is_key
    then (must (get_elem? ts 0) >>= λ v. json_token_to_str json v >>= λ raw_str.
        require (ltb (length found) slots) >>= λ _.
        keys_of slots b64_decode json true ts (found ++ b64_decode raw_str ∷ []))
    else keys_of slots b64_decode json false ts found

abbrev pub quoted : Bytes → Bytes
quoted s = b'"' ∷ s ++ b'"' ∷ []

module _ (perform : Bytes → Bytes → Response) (jsmn_parse : Bytes → List Token)
    (b64_encode b64_decode : Bytes → Bytes) where
  -- `none` is the NULL that is returned when curl fails or there is no ID.
  unfoldable pub etcd_grant : Bytes → ℕ → Exec (Option Bytes)
  unfolding body init_string value_of
  etcd_grant etcd_url ttl =
      let ret =
        perform (etcd_url ++ codes "/v3alpha/lease/grant")
          (codes "{\"TTL\":" ++ quoted (decimal 10 ttl) ++ codes "}") in
      let json = body init_string ret.pieces in
      if ret.ok then value_of json (codes "ID") (jsmn_parse json) else done none

  unfoldable pub etcd_put : Bytes → Bytes → Bytes → Bool
  etcd_put etcd_url key lease_id =
      let ret = perform (etcd_url ++ codes "/v3alpha/kv/put") (
        codes "{\"key\": "
        ++ quoted (b64_encode key)
        ++ codes ", \"value\": \"\", \"lease\":"
        ++ quoted lease_id
        ++ codes "}") in
      ret.ok

  -- The result, true for CURLE_OK, with the keys found. `slots` is the size of the array for them.
  unfoldable pub etcd_get : ℕ → Bytes → Bytes → Exec (Bool × List Bytes)
  unfolding body init_string keys_of
  etcd_get slots etcd_url key =
      let ret = perform (etcd_url ++ codes "/v3alpha/kv/range") (
        codes "{\"key\": "
        ++ quoted (b64_encode key)
        ++ codes ", \"range_end\":\"eg==\", \"sort_order\":1}") in
      let json = body init_string ret.pieces in
      if ret.ok
      then (keys_of slots b64_decode json false (jsmn_parse json) [] >>= λ found.
          done (true, found))
      else done (false, [])

  unfoldable pub etcd_keep_alive : Bytes → Bytes → Bool
  etcd_keep_alive etcd_url lease_id =
      let ret =
        perform (etcd_url ++ codes "/v3alpha/lease/keepalive")
          (codes "{\"ID\":" ++ quoted lease_id ++ codes "}") in
      ret.ok
