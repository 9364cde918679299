-- ===== src/Registry/Tests.antt =====
-- A key as src/provider_agent.c announces it, and an answer of etcd with one key.
use service_mesh_agent.Base.{◌+◌, ◌≡◌, refl, done, codes, arith, Bytes, List, [], ◌∷◌, true, false}
use service_mesh_agent.Tokenizer.Offsets.{lacks, lacks-Lacks}
use service_mesh_agent.Provider.Register.{registered_key}
use service_mesh_agent.Framing.Stream.{IsAll}
use service_mesh_agent.LoadBalancer.{init_history_time}
use service_mesh_agent.Registry.Uri.{Endpoint, init_consumer, str_to_server_uri}
use service_mesh_agent.Registry.Discovered.{IsAnnounced, key_of, init_consumer-keys}
use service_mesh_agent.Registry.Etcd.{Token, Response, jsoneq, json_token_to_str, etcd_get}
use service_mesh_agent.Registry.Endpoints.{other, key_value, etcd_get-keys}
use service_mesh_agent.Registry.RoundTrip.{str_to_server_uri-registered_key}

str_to_server_uri-registered_key_example :
    str_to_server_uri (registered_key (1 + b'0') (codes "10.0.0.7") 30000)
    ≡ done (record { scale = 1; addr = codes "10.0.0.7"; port = 30000 })
unfolding lacks
str_to_server_uri-registered_key_example =
    str_to_server_uri-registered_key 1 30000 b'1' (codes "0.0.0.7") (omega arith)
      (lacks-Lacks b'/' (codes "10.0.0.7") refl) (lacks-Lacks b':' (codes "10.0.0.7") refl)
      (omega arith) (omega arith)

abbrev token : Token
token = record { is_string = false; start = 0; end = 14 }

abbrev key_token : Token
key_token = record { is_string = true; start = 2; end = 5 }

abbrev value_token : Token
value_token = record { is_string = true; start = 8; end = 12 }

abbrev answered : Bytes → Bytes → Response
answered url fields = record { ok = true; pieces = codes "{\"key\":" ∷ codes "\"aGk=\"}" ∷ [] }

abbrev parsed : Bytes → List Token
parsed json = token ∷ key_token ∷ value_token ∷ []

abbrev decoded : Bytes → Bytes
decoded s = codes "hi"

etcd_get-keys_example :
    etcd_get answered parsed (λ s. s) decoded 100 (codes "http://etcd") (codes "/dubbomesh")
    ≡ done (true, codes "hi" ∷ [])
unfolding jsoneq json_token_to_str
etcd_get-keys_example =
    etcd_get-keys 100 answered parsed (λ s. s) decoded (codes "http://etcd") (codes "/dubbomesh")
      (codes "{\"key\":" ∷ codes "\"aGk=\"}" ∷ [])
      (other token ∷ key_value key_token value_token (codes "aGk=") ∷ []) refl refl
      (refl, ((refl, refl), tt))

abbrev provider_small : Endpoint
provider_small = record { scale = 0; addr = codes "10.0.0.7"; port = 30000 }

provider_small-IsAnnounced : IsAnnounced provider_small
unfolding lacks
provider_small-IsAnnounced = record {
  first = b'1';
  rest = codes "0.0.0.7";
  is_addr = refl;
  known = omega arith;
  no_slash = lacks-Lacks b'/' (codes "10.0.0.7") refl;
  no_colon = lacks-Lacks b':' (codes "10.0.0.7") refl;
  short = omega arith;
  small = omega arith;
}

init_consumer-keys_example :
    init_consumer (done (true, key_of provider_small ∷ key_of provider_small ∷ []))
    ≡ done (
      provider_small ∷ provider_small ∷ [],
      record {
        num_of_ends = 2;
        history_diff_time_lst = init_history_time ∷ init_history_time ∷ [];
      },
    )
unfolding IsAll
init_consumer-keys_example =
    init_consumer-keys provider_small (provider_small ∷ [])
      (provider_small-IsAnnounced, (provider_small-IsAnnounced, tt))
