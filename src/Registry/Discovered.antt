-- ===== src/Registry/Discovered.antt =====
-- src/consumer_agent.c, init_consumer on the keys that providers have announced.
use service_mesh_agent.Base.{
  ℕ, suc, ◌+◌, ◌<◌, ◌^◌, ◌≡◌, refl, ap, ◌∙◌, List, [], ◌∷◌, Bytes, done, ◌>>=◌, map, sym,
  Bool-cases, inl, inr, ne→not-==, arith, length, leb, true, fault, if◌then◌else◌, replicate,
}
use service_mesh_agent.LoadBalancer.{LoadBalancer, init_load_balancer, init_history_time, max_ends}
use service_mesh_agent.Framing.Stream.{IsAll}
use service_mesh_agent.Tokenizer.Offsets.{Lacks}
use service_mesh_agent.Provider.Register.{registered_key}
use service_mesh_agent.Registry.Uri.{Endpoint, str_to_server_uri, read_endpoints, init_consumer}
use service_mesh_agent.Registry.RoundTrip.{str_to_server_uri-registered_key}

-- An endpoint whose key is read back: a known scale, an address that is not empty, is shorter than 256
-- bytes and has no slash and no colon, and an int as its port.
pub record IsAnnounced (e : Endpoint) : Type 0 where
  pub first : ℕ
  pub rest : Bytes
  pub is_addr : e.addr ≡ first ∷ rest
  pub known : e.scale < 3
  pub no_slash : Lacks b'/' (first ∷ rest)
  pub no_colon : Lacks b':' (first ∷ rest)
  pub short : length (first ∷ rest) < 256
  pub small : e.port < 2 ^ 31

unfoldable pub key_of : Endpoint → Bytes
key_of e = registered_key (e.scale + b'0') e.addr e.port

key_of-Endpoint : (e : Endpoint) → IsAnnounced e → str_to_server_uri (key_of e) ≡ done e
unfolding key_of
key_of-Endpoint e h =
    ap (λ addr. str_to_server_uri (registered_key (e.scale + b'0') addr e.port)) h.is_addr
    ∙ (str_to_server_uri-registered_key e.scale e.port h.first h.rest h.known h.no_slash h.no_colon
          h.short h.small
        ∙ ap (λ addr. done (record { scale = e.scale; addr = addr; port = e.port }))
            (sym h.is_addr))

read_endpoints-keys :
    (es : List Endpoint) → IsAll IsAnnounced es → read_endpoints (map key_of es) ≡ done es
unfolding read_endpoints IsAll
read_endpoints-keys [] all = refl
read_endpoints-keys (e ∷ es) all =
    rw (key_of-Endpoint e all.0, ◌>>=◌, read_endpoints-keys es all.1) refl

length-map {ℓ κ} :
    {A : Type ℓ} {B : Type κ} (f : A → B) (xs : List A) → length (map f xs) ≡ length xs
length-map f [] = refl
length-map f (x ∷ xs) = ap suc (length-map f xs)

balances :
    (n : ℕ) (es : List Endpoint)
    → ◌>>=◌ {B = List Endpoint × LoadBalancer} (init_load_balancer n) (λ lb. done (es, lb)) ≡ (
        if leb n max_ends
        then done
            (es, record { num_of_ends = n; history_diff_time_lst = replicate n init_history_time })
        else fault)
unfolding init_load_balancer
balances n es = elim (Bool-cases (leb n max_ends)) [ inl e ↦ rw (e) refl | inr e ↦ rw (e) refl ]

-- When etcd returns the keys of at least one and at most 16 announced endpoints, the consumer agent
-- knows exactly these endpoints, in their order, and its load balancer has one idle entry for each. If
-- there are more, init_load_balancer writes behind its arrays.
pub init_consumer-keys :
    (e : Endpoint) (es : List Endpoint)
    → IsAll IsAnnounced (e ∷ es)
    → init_consumer (done (true, map key_of (e ∷ es))) ≡ (
        if leb (length (e ∷ es)) max_ends
        then done (
          e ∷ es,
          record {
            num_of_ends = length (e ∷ es);
            history_diff_time_lst = replicate (length (e ∷ es)) init_history_time;
          },
        )
        else fault)
unfolding init_consumer
init_consumer-keys e es all =
    rw
      (
        read_endpoints-keys (e ∷ es) all,
        ◌>>=◌,
        length-map key_of es,
        ne→not-== (suc (length es)) 0 (λ q. omega (arith, q)),
      )
      (balances (suc (length es)) (e ∷ es))
