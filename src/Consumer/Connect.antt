-- ===== src/Consumer/Connect.antt =====
-- src/consumer_agent.c, the connections: to every provider agent, then from clients.
use service_mesh_agent.Base.{
  ℕ, zero, suc, List, [], ◌∷◌, ◌++◌, ◌==◌, if◌then◌else◌, Bytes, Exec, done, exit, ◌>>=◌, must,
  get_elem?, set, some, Bool, true, false,
}
use service_mesh_agent.Base.Int.{ℤ, pos, ◌+ℤ◌, ◌-ℤ◌, ltb_ℤ}
use service_mesh_agent.LoadBalancer.{LoadBalancer}
use service_mesh_agent.Uv.{
  Request, uv_tcp_connect, uv_read_start, uv_close, uv_listen, sleep, Heap, malloc, free, Read,
  arrived, again, eof, error,
}
use service_mesh_agent.Consumer.State.{TcpServer, init_http_req_t, init_tcp_server_t}

abbrev pub World : Type 0
World = Heap × TcpServer × List Request

-- An endpoint that is connected is left alone.
unfoldable pub make_connection_to_agent : ℕ → Heap → TcpServer → Exec World
make_connection_to_agent i h s = must (get_elem? s.endpoint_servers i) >>= λ server.
    if server.connected then done (h, s, []) else (do
      let (conn, h) = malloc h
      h ← free h server.conn
      let (client, h) = malloc h
      h ← free h server.tcp_stream
      let servers =
          set s.endpoint_servers i (record server { conn = some conn; tcp_stream = some client })
      done (h, record s { endpoint_servers = servers }, uv_tcp_connect conn client ∷ []))

-- connect_to_provider_agent_long_live, from endpoint `i` on with `n` of them to go.
unfoldable pub connect_to_provider_agent_long_live : ℕ → ℕ → Heap → TcpServer → Exec World
unfolding make_connection_to_agent
connect_to_provider_agent_long_live zero i h s = done (h, s, [])
connect_to_provider_agent_long_live (suc n) i h s = do
  (h, s, asked) ← make_connection_to_agent i h s
  (h, s, rest) ← connect_to_provider_agent_long_live n (suc i) h s
  done (h, s, asked ++ rest)

unfoldable pub start_work_event_loop : ℕ → Bytes → ℕ → LoadBalancer → Heap → Exec World
unfolding init_tcp_server_t
start_work_event_loop tid raw num_endpoint_servers lb h =
    connect_to_provider_agent_long_live num_endpoint_servers 0 h
      (init_tcp_server_t tid raw num_endpoint_servers lb)

-- `ok` is r == 0.
unfoldable pub start_listen : Bool → Exec (List Request)
start_listen true = done (uv_listen ∷ [])
start_listen false = exit

-- The callback of uv_tcp_connect; `ok` is status == 0. Listening starts with the last connection;
-- `can_listen` says whether uv_listen returns 0 then.
unfoldable pub c_after_connect_to_a_agent : ℕ → Bool → ℕ → Bool → Heap → TcpServer → Exec World
unfolding make_connection_to_agent start_listen
c_after_connect_to_a_agent num_endpoint_servers can_listen which true h s = do
  server ← must (get_elem? s.endpoint_servers which)
  stream ← must server.tcp_stream
  let count = suc s.endpoint_connection_count
  let s = record s {
    endpoint_servers = set s.endpoint_servers which (record server { connected = true });
    endpoint_connection_count = count;
  }
  asked ← if count == num_endpoint_servers then start_listen can_listen else done []
  done (h, s, uv_read_start stream ∷ asked)
c_after_connect_to_a_agent num_endpoint_servers can_listen which false h s = do
  (h, s, asked) ← make_connection_to_agent which h s
  done (h, s, sleep 3 ∷ asked)

-- The callback of uv_close, after the end of a stream.
unfoldable pub reconnection_to_agent : ℕ → Heap → TcpServer → Exec World
reconnection_to_agent which h s = make_connection_to_agent which h s

-- Thirty seconds after the start the limit rises.
unfoldable pub conn_limit : ℤ → ℤ → ℤ
conn_limit cur_time start_time =
    if ltb_ℤ (pos 30000000) (cur_time -ℤ start_time) then pos 1024 else pos 256

-- `status` is 0 if `ok`, uv_accept returns 0 if `accepted`. A client above the limit is read, and its
-- bytes dropped. `raw` and `response` are what malloc returns.
unfoldable pub on_new_connection :
    Bytes → Bytes → ℤ → ℤ → Heap → TcpServer → Bool → Bool → Exec World
unfolding conn_limit init_http_req_t
on_new_connection raw response cur_time start_time h s false accepted = done (h, s, [])
on_new_connection raw response cur_time start_time h s true false =
    let (client, h) = malloc h in done (h, s, uv_close client ∷ [])
on_new_connection raw response cur_time start_time h s true true =
    let (client, h) = malloc h in
    if ltb_ℤ s.global_conn_remain_count (conn_limit cur_time start_time)
    then done (
      h,
      record s {
        global_conn_remain_count = s.global_conn_remain_count +ℤ pos 1;
        requests =
            s.requests
            ++ some (record (init_http_req_t raw response) { client = some client }) ∷ [];
      },
      uv_read_start client ∷ [],
    )
    else done (h, s, uv_read_start client ∷ [])

-- What a client above the limit sends is dropped.
unfoldable pub c_dummy_read_connection_data : ℕ → Read → List Request
c_dummy_read_connection_data client (arrived chunk) = []
c_dummy_read_connection_data client again = []
c_dummy_read_connection_data client eof = uv_close client ∷ []
c_dummy_read_connection_data client error = uv_close client ∷ []
