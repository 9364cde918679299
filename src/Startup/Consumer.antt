-- ===== src/Startup/Consumer.antt =====
-- src/consumer_agent.c, consumer: the endpoints are read from etcd, then each event loop connects to
-- all of them.
use service_mesh_agent.Base.{ℕ, zero, suc, List, [], ◌∷◌, Bytes, Exec, done, ◌>>=◌}
use service_mesh_agent.LoadBalancer.{LoadBalancer}
use service_mesh_agent.Uv.{Heap}
use service_mesh_agent.Registry.Etcd.{etcd_get, maximum_endpoint_servers}
use service_mesh_agent.Registry.Uri.{init_consumer}
use service_mesh_agent.Provider.Register.{service_key}
use service_mesh_agent.Consumer.State.{event_loop_num}
use service_mesh_agent.Consumer.Connect.{start_work_event_loop}
use service_mesh_agent.Startup.Outside.{Outside, Action, runs}

-- `n` threads, from number `tid` on.
unfoldable pub start_threads : Bytes → LoadBalancer → ℕ → ℕ → Heap → Exec (List Action)
start_threads raw lb zero tid h = done []
start_threads raw lb (suc n) tid h = do
  (h, server, asked) ← start_work_event_loop tid raw lb.num_of_ends lb h
  rest ← start_threads raw lb n (suc tid) h
  done (runs tid asked ∷ rest)

unfoldable pub consumer : Outside → Bytes → Exec (List Action)
unfolding start_threads
consumer o etcd_url = do
  (endpoints, lb) ← init_consumer (
      etcd_get o.perform o.jsmn_parse o.b64_encode o.b64_decode maximum_endpoint_servers etcd_url
        service_key)
  start_threads o.raw lb event_loop_num 0 o.heap
