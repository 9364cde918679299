-- ===== src/Startup/Provider.antt =====
-- src/provider_agent.c, the start: the address is resolved, the key is put to etcd, the dubbo server is
-- probed until it answers, and then every event loop listens.
use service_mesh_agent.Base.{
  ℕ, zero, suc, ◌-◌, ltb, if◌then◌else◌, List, [], ◌∷◌, ◌++◌, Bytes, Exec, done, exit, ◌>>=◌, must,
  Bool, true, false, Option, none, some,
}
use service_mesh_agent.Uv.{Request, uv_listen, Heap}
use service_mesh_agent.Registry.Etcd.{etcd_grant, etcd_put, etcd_keep_alive}
use service_mesh_agent.Registry.Uri.{exit_unless}
use service_mesh_agent.Provider.Life.{Probe, test_dubbo_connection}
use service_mesh_agent.Provider.Probe.{probes}
use service_mesh_agent.Provider.Register.{init_provider, registered_key}
use service_mesh_agent.Startup.Outside.{Outside, Action, put, keep_alive, asks, runs}

abbrev pub lease_ttl : ℕ
lease_ttl = 600

abbrev pub p_event_loop_num : ℕ
p_event_loop_num = 2

-- The endless loop of the thread that keeps the lease, `rounds` rounds of it: the seconds that it sleeps,
-- and the result of etcd_keep_alive.
unfoldable pub keep_alive_thread_work : Outside → Bytes → Bytes → ℕ → List (ℕ × Bool)
keep_alive_thread_work o etcd_url ID zero = []
keep_alive_thread_work o etcd_url ID (suc rounds) =
    (
      if ltb 3 (lease_ttl - 10) then lease_ttl - 10 else 3,
      etcd_keep_alive o.perform o.jsmn_parse o.b64_encode o.b64_decode etcd_url ID,
    )
    ∷ keep_alive_thread_work o etcd_url ID rounds

-- A lease that is NULL is undefined in the sprintf of etcd_put. Its result is not looked at.
unfoldable pub on_resolved :
    Outside → Bytes → ℕ → ℕ → Option Bytes → Exec (Probe × Heap × List Action)
on_resolved o etcd_url provider_scale server_port none = exit
on_resolved o etcd_url provider_scale server_port (some addr) = do
  granted ← etcd_grant o.perform o.jsmn_parse o.b64_encode o.b64_decode etcd_url lease_ttl
  lease_id ← must granted
  let buff = registered_key provider_scale addr server_port
  let ret = etcd_put o.perform o.jsmn_parse o.b64_encode o.b64_decode etcd_url buff lease_id
  let (probe, h, asked) = test_dubbo_connection o.heap
  done (probe, h, put buff lease_id ret ∷ keep_alive lease_id ∷ asks asked ∷ [])

-- `ok` is r == 0.
unfoldable pub p_start_listen : Bool → Exec (List Request)
p_start_listen true = done (uv_listen ∷ [])
p_start_listen false = exit

-- p_start_work_event_loop in `n` threads, from number `tid` on.
unfoldable pub p_start_threads : (ℕ → Bool) → ℕ → ℕ → Exec (List Action)
unfolding p_start_listen
p_start_threads listens zero tid = done []
p_start_threads listens (suc n) tid = do
  asked ← p_start_listen (listens tid)
  rest ← p_start_threads listens n (suc tid)
  done (runs tid asked ∷ rest)

unfoldable pub provider : Outside → Bytes → ℕ → Bytes → Exec (List Action)
unfolding on_resolved p_start_threads
provider o provider_type server_port etcd_url = do
  provider_scale ← init_provider provider_type
  _ ← exit_unless o.resolves
  (probe, h, announced) ← on_resolved o etcd_url provider_scale server_port o.address
  (h, left, asked) ← probes h probe o.refusals
  started ← p_start_threads o.listens p_event_loop_num 0
  done (announced ++ (asks asked ∷ started))
