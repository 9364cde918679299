-- ===== src/Consumer/Events.antt =====
-- src/consumer_agent.c: the callbacks of one event loop in any order. libuv decides which comes next;
-- what is asked of it meanwhile is left out.
use service_mesh_agent.Base.{ℕ, List, [], ◌∷◌, Bytes, Exec, done, ◌>>=◌}
use service_mesh_agent.Base.Int.{ℤ}
use service_mesh_agent.Uv.{Read}
use service_mesh_agent.Consumer.State.{TcpServer, close_cb}
use service_mesh_agent.Consumer.Serve.{Parsed, c_read_connection_data}
use service_mesh_agent.Consumer.Answer.{c_read_from_provide_agents}

-- The callbacks of one event loop that reads give rise to.
pub data Event : Type 0 where
  client_read : ℕ → Read → ℤ → Event
  provider_read : ℕ → Read → (ℕ → ℤ) → Event
  client_closed : ℕ → Event

unfoldable pub step : (Bytes → Parsed) → Event → TcpServer → Exec TcpServer
step phr_parse_request (client_read p read now) s =
    c_read_connection_data phr_parse_request s p read now >>= λ r. done r.0
step phr_parse_request (provider_read which read clock) s =
    c_read_from_provide_agents clock s which read [] >>= λ r. done r.0
step phr_parse_request (client_closed p) s = close_cb s p

unfoldable pub run : (Bytes → Parsed) → List Event → TcpServer → Exec TcpServer
run phr_parse_request [] s = done s
run phr_parse_request (e ∷ es) s = step phr_parse_request e s >>= run phr_parse_request es
