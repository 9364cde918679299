-- ===== src/Registry/Endpoints.antt =====
-- src/utils/etcd.c, etcd_get: the keys that it finds in an answer of etcd.
use service_mesh_agent.Base.{
  ℕ, ◌+◌, ◌≤◌, ◌≡◌, refl, ap, ◌∙◌, List, [], ◌∷◌, ◌++◌, leb, Bool, if◌then◌else◌, Bytes, Exec, done,
  fault, ◌>>=◌, must, require, length, codes, true, false, arith, map, append-nil, append_assoc,
  length-append, le→leb, lt→not-leb, lt→ltb, le→not-ltb, ap₂, suc,
}
use native.Mathlib.Decide.{dec_lt}
use service_mesh_agent.Registry.Etcd.{
  Token, Response, jsoneq, json_token_to_str, keys_of, body, writefunc, init_string, etcd_get,
  quoted,
}

-- The tokens of an answer: a token that is not the string `key`, or that string with the token behind
-- it and the text of the latter.
pub data Item : Type 0 where
  other : Token → Item
  key_value : Token → Token → Bytes → Item

abbrev pub tokens_of : List Item → List Token
tokens_of [] = []
tokens_of (other t ∷ items) = t ∷ tokens_of items
tokens_of (key_value k v raw ∷ items) = k ∷ v ∷ tokens_of items

abbrev pub values_of : List Item → List Bytes
values_of [] = []
values_of (other t ∷ items) = values_of items
values_of (key_value k v raw ∷ items) = raw ∷ values_of items

abbrev pub IsItem : Bytes → Item → Type 0
IsItem json (other t) = jsoneq json t (codes "key") ≡ done false
IsItem json (key_value k v raw) =
    (jsoneq json k (codes "key") ≡ done true) × (json_token_to_str json v ≡ done raw)

abbrev pub AreItems : Bytes → List Item → Type 0
AreItems json [] = Unit {0}
AreItems json (item ∷ items) = IsItem json item × AreItems json items

-- The text of an answer that comes in pieces.
abbrev pub joined : List Bytes → Bytes
joined [] = []
joined (p ∷ ps) = p ++ joined ps

body-joined : (s : Bytes) (ps : List Bytes) → body s ps ≡ s ++ joined ps
unfolding body writefunc
body-joined s [] = rw (append-nil s) refl
body-joined s (p ∷ ps) = body-joined (s ++ p) ps ∙ append_assoc s p (joined ps)

keys_of-tokens_of :
    (slots : ℕ) (b64_decode : Bytes → Bytes) (json : Bytes) (items : List Item) (found : List Bytes)
    → AreItems json items
    → length found ≤ slots
    → keys_of slots b64_decode json false (tokens_of items) found ≡ (
        if leb (length found + length (values_of items)) slots
        then done (found ++ map b64_decode (values_of items))
        else fault)
unfolding keys_of
keys_of-tokens_of slots b64_decode json [] found h l =
    rw (le→leb (length found + 0) slots (omega arith), append-nil found) refl
keys_of-tokens_of slots b64_decode json (other t ∷ items) found h l =
    rw (h.0) (keys_of-tokens_of slots b64_decode json items found h.1 l)
keys_of-tokens_of slots b64_decode json (key_value k v raw ∷ items) found h l =
    elim (dec_lt (length found) slots) [
      | yes q ↦
          let longer = length-append found (b64_decode raw ∷ []) in
          rw (h.0.0, must, ◌>>=◌, h.0.1, lt→ltb (length found) slots q, require)
            (keys_of-tokens_of slots b64_decode json items (found ++ b64_decode raw ∷ []) h.1
                (omega arith)
              ∙ ap₂ (λ n xs. if leb n slots then done xs else fault) (omega arith)
                  (append_assoc found (b64_decode raw ∷ []) (map b64_decode (values_of items))))
      | no q ↦
          rw
            (
              h.0.0,
              must,
              ◌>>=◌,
              h.0.1,
              le→not-ltb (length found) slots (omega arith),
              require,
              lt→not-leb (length found + suc (length (values_of items))) slots (omega arith),
            )
            refl
    ]

abbrev succeeded : List Bytes → Exec (Bool × List Bytes)
succeeded found = done (true, found)

if->>= :
    (b : Bool) (xs : List Bytes)
    → ((if b then done xs else fault) >>= succeeded) ≡ (if b then succeeded xs else fault)
if->>= true xs = refl
if->>= false xs = refl

-- When curl succeeds, and the tokens of the answer are `items`, where behind each string `key` stands
-- a token with a text, etcd_get decodes the values of all strings `key`, in their order, if the array
-- that it is given has a slot for each. If there are more of them it writes behind the array.
pub etcd_get-keys :
    (slots : ℕ) (perform : Bytes → Bytes → Response) (jsmn_parse : Bytes → List Token)
    (b64_encode b64_decode : Bytes → Bytes) (etcd_url key : Bytes) (pieces : List Bytes)
    (items : List Item)
    → perform (etcd_url ++ codes "/v3alpha/kv/range") (
        codes "{\"key\": "
        ++ quoted (b64_encode key)
        ++ codes ", \"range_end\":\"eg==\", \"sort_order\":1}")
      ≡ record { ok = true; pieces = pieces }
    → jsmn_parse (joined pieces) ≡ tokens_of items
    → AreItems (joined pieces) items
    → etcd_get perform jsmn_parse b64_encode b64_decode slots etcd_url key ≡ (
        if leb (length (values_of items)) slots
        then done (true, map b64_decode (values_of items))
        else fault)
unfolding etcd_get init_string
etcd_get-keys slots perform jsmn_parse b64_encode b64_decode etcd_url key pieces items sent parsed
      h =
    let none_yet : 0 + length (values_of items) ≡ length (values_of items) = omega arith in
    ap answer sent
    ∙ rw (body-joined [] pieces, parsed)
        (ap (λ m. m >>= succeeded)
            (keys_of-tokens_of slots b64_decode (joined pieces) items [] h (omega arith))
          ∙ ap (λ n. (if leb n slots then done decoded else fault) >>= succeeded) none_yet
          ∙ if->>= (leb (length (values_of items)) slots) decoded)
  where
    decoded : List Bytes
    decoded = map b64_decode (values_of items)

    answer : Response → Exec (Bool × List Bytes)
    answer ret =
        let json = body [] ret.pieces in
        if ret.ok
        then (keys_of slots b64_decode json false (jsmn_parse json) [] >>= λ found.
            done (true, found))
        else done (false, [])
