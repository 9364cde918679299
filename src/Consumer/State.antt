-- ===== src/Consumer/State.antt =====
-- src/consumer_agent.h and the constructors of consumer_agent.c. The objects http_req_t stand in a
-- store, by number: one that has been freed is `none`, so that a pointer to it is found out.
use service_mesh_agent.Base.{
  ℕ, ◌*◌, List, [], Bytes, Exec, done, ◌>>=◌, must, get_elem?, set, replicate, Option, none, some,
  Bool, false,
}
use service_mesh_agent.Base.Int.{ℤ, pos}
use service_mesh_agent.Framing.{Inbox, room}
use service_mesh_agent.LoadBalancer.{LoadBalancer}

abbrev pub hash_slot_num : ℕ
hash_slot_num = 8192

abbrev pub event_loop_num : ℕ
event_loop_num = 2

abbrev pub default_package_size : ℕ
default_package_size = 4096

abbrev pub default_response_size : ℕ
default_response_size = 4096

-- `http_req_t`. A negative request_length is `none`; so is the req_id -1 of a fresh one.
pub record HttpReq : Type 0 where
  pub client : Option ℕ
  pub inbox : Inbox
  pub request_length : Option ℕ
  pub req_id : Option ℕ
  pub response_package : Bytes
  pub ts_req_beg : ℤ

-- `endpoint_server_t`, its number being its place. `connected`: conn_status is 0, and not -1.
pub record EndpointServer : Type 0 where
  pub inbox : Inbox
  pub tcp_stream : Option ℕ
  pub conn : Option ℕ
  pub connected : Bool

-- `tcp_server_t` with what it shares: the store, the balancer, the number of clients.
pub record TcpServer : Type 0 where
  pub endpoint_connection_count : ℕ
  pub req_id : ℕ
  pub endpoint_servers : List EndpointServer
  pub http_req_dict : List (Option ℕ)
  pub requests : List (Option HttpReq)
  pub global_lb : LoadBalancer
  pub global_conn_remain_count : ℤ

-- `raw` and `package` are what malloc returns.
unfoldable pub init_http_req_t : Bytes → Bytes → HttpReq
init_http_req_t raw response = record {
  client = none;
  inbox = record { buf = raw; size = 0 };
  request_length = none;
  req_id = none;
  response_package = response;
  ts_req_beg = pos 0;
}

-- start_work_event_loop, its first loop; `raw` is what malloc returns for an endpoint's buffer.
unfoldable pub init_endpoint_server : Bytes → EndpointServer
init_endpoint_server raw = record {
  inbox = record { buf = raw; size = 0 };
  tcp_stream = none;
  conn = none;
  connected = false;
}

-- init_tcp_server_t, and the endpoints that start_work_event_loop adds before it connects.
unfoldable pub init_tcp_server_t : ℕ → Bytes → ℕ → LoadBalancer → TcpServer
unfolding init_endpoint_server
init_tcp_server_t tid raw num_endpoint_servers global_lb = record {
  endpoint_connection_count = 0;
  req_id = tid;
  endpoint_servers = replicate num_endpoint_servers (init_endpoint_server raw);
  http_req_dict = replicate hash_slot_num none;
  requests = [];
  global_lb = global_lb;
  global_conn_remain_count = pos 0;
}

-- The object that a pointer points to.
unfoldable pub deref : TcpServer → ℕ → Exec HttpReq
deref s p = must (get_elem? s.requests p) >>= λ o. must o

abbrev pub store : TcpServer → ℕ → HttpReq → TcpServer
store s p req = record s { requests = set s.requests p (some req) }

unfoldable pub alloc_buffer : HttpReq → ℕ
alloc_buffer req = room (2 * default_package_size) req.inbox

unfoldable pub alloc_buffer_to_agent : EndpointServer → ℕ
alloc_buffer_to_agent endpoint = room default_response_size endpoint.inbox

-- close_cb and free_http_req, run by libuv some time after uv_close. The dictionary keeps its entry.
unfoldable pub close_cb : TcpServer → ℕ → Exec TcpServer
unfolding deref
close_cb s p = deref s p >>= λ req. done (record s { requests = set s.requests p none })
