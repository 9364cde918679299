-- ===== src/Provider/Life.antt =====
-- src/provider_agent.c, the life of a relay. The handles are blocks of the heap.
use service_mesh_agent.Base.{
  ℕ, List, [], ◌∷◌, Bytes, Exec, done, ◌>>=◌, must, Option, none, some, Bool, true, false,
}
use service_mesh_agent.Provider.Relay.{TcpRelay, init_tcp_relay_t, package_size}
use service_mesh_agent.Uv.{
  Request, uv_tcp_connect, uv_read_start, uv_close, sleep, Heap, malloc, free,
}

abbrev pub World : Type 0
World = Heap × TcpRelay × List Request

-- A new socket and a new uv_connect_t take the places of those of an earlier attempt.
unfoldable pub connect_to_dubbo_long_live : Heap → TcpRelay → Exec World
connect_to_dubbo_long_live h relay = do
  let (dubbo_socket, h) = malloc h
  h ← free h relay.tcp_conn_2
  let (dubbo_connection, h) = malloc h
  h ← free h relay.dubbo_connection
  done (
    h,
    record relay { tcp_conn_2 = some dubbo_socket; dubbo_connection = some dubbo_connection },
    uv_tcp_connect dubbo_connection dubbo_socket ∷ [],
  )

-- The callback of uv_tcp_connect; `ok` is status == 0.
unfoldable pub p_on_duboo_connect : Heap → TcpRelay → Bool → Exec World
unfolding connect_to_dubbo_long_live
p_on_duboo_connect h relay true = do
  dubbo_stream ← must relay.tcp_conn_2
  consumer_agent ← must relay.tcp_conn_1
  done (h, relay, uv_read_start dubbo_stream ∷ uv_read_start consumer_agent ∷ [])
p_on_duboo_connect h relay false = do
  (h, relay, asked) ← connect_to_dubbo_long_live h relay
  done (h, relay, sleep 3 ∷ asked)

-- The handles and the relay itself are freed, its buffers are not.
unfoldable pub free_tcp_relay_t : Heap → TcpRelay → Exec Heap
free_tcp_relay_t h relay = do
  h ← free h relay.tcp_conn_1
  h ← free h relay.tcp_conn_2
  h ← free h relay.dubbo_connection
  free h (some relay.address)

-- Connection 1 is closed first, in its callback connection 2 is, and in that one's all is freed.
unfoldable pub p_close_tcp_relay_connection1 : TcpRelay → Exec (List Request)
p_close_tcp_relay_connection1 relay = must relay.tcp_conn_2 >>= λ conn. done (uv_close conn ∷ [])

unfoldable pub p_close_tcp_relay_connection2 : Heap → TcpRelay → Exec Heap
p_close_tcp_relay_connection2 h relay = free_tcp_relay_t h relay

-- A consumer agent has connected: `status` is 0 if libuv says so, `accepted` if uv_accept returns 0.
-- `buf1` and `buf2` are the bytes that malloc leaves in the buffers.
unfoldable pub p_on_new_connection :
    Bytes → Bytes → Heap → Bool → Bool → Exec (Heap × Option TcpRelay × List Request)
unfolding init_tcp_relay_t
p_on_new_connection buf1 buf2 h false accepted = done (h, none, [])
p_on_new_connection buf1 buf2 h true false =
    let (client, h) = malloc h in done (h, none, uv_close client ∷ [])
p_on_new_connection buf1 buf2 h true true = do
  let (client, h) = malloc h
  let (relay, h) = init_tcp_relay_t buf1 buf2 package_size h
  let relay = record relay { tcp_conn_1 = some client }
  (h, relay, asked) ← connect_to_dubbo_long_live h relay
  done (h, some relay, asked)

-- The probe of the dubbo server, before the event loops start: an attempt is a uv_connect_t and the
-- uv_tcp_t that it connects.
pub record Probe : Type 0 where
  pub connection : ℕ
  pub handle : ℕ

unfoldable pub test_dubbo_connection : Heap → Probe × Heap × List Request
test_dubbo_connection h =
    let (dubbo_connection, h) = malloc h in
    let (dubbo_socket, h) = malloc h in
    (
      record { connection = dubbo_connection; handle = dubbo_socket },
      h,
      uv_tcp_connect dubbo_connection dubbo_socket ∷ [],
    )

-- Its callback: the attempt that follows a failure is made before the blocks of the old one are freed.
unfoldable pub p_on_duboo_connect_test_cb :
    Heap → Probe → Bool → Exec (Heap × Option Probe × List Request)
unfolding test_dubbo_connection
p_on_duboo_connect_test_cb h probe true = do
  h ← free h (some probe.handle)
  h ← free h (some probe.connection)
  done (h, none, uv_close probe.handle ∷ [])
p_on_duboo_connect_test_cb h probe false = do
  let (next, h, asked) = test_dubbo_connection h
  h ← free h (some probe.handle)
  h ← free h (some probe.connection)
  done (h, some next, sleep 3 ∷ asked)
