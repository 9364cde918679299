-- ===== src/Startup/Announced.antt =====
-- A provider agent that is started: what it does, and what a consumer agent makes of its key.
use service_mesh_agent.Base.{ℕ, zero, suc, ◌≡◌, List, [], ◌∷◌, Bytes, done, some, Bool, ◌++◌, codes}
use service_mesh_agent.Uv.{uv_listen, uv_tcp_connect}
use service_mesh_agent.Registry.Etcd.{etcd_grant}
use service_mesh_agent.Provider.Probe.{probe_requests}
use service_mesh_agent.Startup.Outside.{Outside, Action, put, keep_alive, asks, runs}
use service_mesh_agent.Startup.Provider.{lease_ttl}

-- The types of provider, by their scale.
unfoldable pub provider_type : ℕ → Bytes
provider_type zero = codes "provider-small"
provider_type (suc zero) = codes "provider-medium"
provider_type (suc (suc n)) = codes "provider-large"

module _ (o : Outside) where
  -- etcd has granted this lease.
  unfoldable pub IsGranted : Bytes → Bytes → Type 0
  IsGranted etcd_url lease_id =
      etcd_grant o.perform o.jsmn_parse o.b64_encode o.b64_decode etcd_url lease_ttl
      ≡ done (some lease_id)

  -- What curl says of the request that stores the key under the lease.
  unfoldable pub is_stored : Bytes → Bytes → Bytes → Bool
  is_stored etcd_url key lease_id =
      let answer = o.perform (etcd_url ++ codes "/v3alpha/kv/put") (
        codes "{\"key\": "
        ++ (b'"' ∷ o.b64_encode key ++ codes "\"")
        ++ codes ", \"value\": \"\", \"lease\":"
        ++ (b'"' ∷ lease_id ++ codes "\"")
        ++ codes "}") in
      answer.ok

  -- All that the start of the agent does, from the put of the key on: the handles of the probe are the
  -- next blocks of the heap.
  abbrev actions_of : Bytes → Bytes → Bytes → List Action
  actions_of etcd_url key lease_id =
      put key lease_id (is_stored etcd_url key lease_id)
      ∷ keep_alive lease_id
      ∷ asks (uv_tcp_connect o.heap.next (suc o.heap.next) ∷ [])
      ∷ asks (probe_requests o.heap.next o.refusals)
      ∷ runs 0 (uv_listen ∷ [])
      ∷ runs 1 (uv_listen ∷ [])
      ∷ []
