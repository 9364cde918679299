-- ===== src/Consumer/Serve.antt =====
-- src/consumer_agent.c, c_read_connection_data and send_to_provider_agent. phr_parse_request of
-- picohttpparser is a parameter; `now` is what get_wall_time returns.
use service_mesh_agent.Base.{
  ℕ, ◌+◌, ◌-◌, ◌%◌, List, [], ◌∷◌, leb, ltb, if◌then◌else◌, Bytes, Exec, done, fault, ◌>>=◌, must,
  require, get_elem?, set, length, take, write, slice, Option, none, some,
}
use service_mesh_agent.Base.Int.{ℤ, pos, ◌-ℤ◌}
use service_mesh_agent.Base.Words.{u32, u64, int_to_size}
use service_mesh_agent.Codec.{int_to_four_char, long_to_8bytes}
use service_mesh_agent.Framing.{receive}
use service_mesh_agent.LoadBalancer.{select_endpoint_time_based}
use service_mesh_agent.Text.{atoi}
use service_mesh_agent.Uv.{Request, uv_write, uv_close, Read, arrived, again, eof, error}
use service_mesh_agent.Consumer.State.{
  HttpReq, TcpServer, hash_slot_num, event_loop_num, deref, store,
}

-- What phr_parse_request says of the bytes: the length of the header and the value of its first
-- field, if there is one; or a failure, or that more is needed, both negative.
pub data Parsed : Type 0 where
  header : ℕ → Option Bytes → Parsed
  negative : Parsed

-- The request is entered into the dictionary, and `send_buffer` written to the endpoint.
unfoldable pub send_to_provider_agent :
    TcpServer → ℕ → ℕ → ℕ → Bytes → Exec (TcpServer × List Request)
send_to_provider_agent s which_endpoint p req_id send_buffer = do
  endpoint ← must (get_elem? s.endpoint_servers which_endpoint)
  let slot = req_id % hash_slot_num
  _ ← require (ltb slot (length s.http_req_dict))
  stream ← must endpoint.tcp_stream
  done (
    record s { http_req_dict = set s.http_req_dict slot (some p) },
    uv_write stream send_buffer ∷ [],
  )

-- The whole request has arrived: header of `request_length` bytes, then `content_length` of body.
-- The length and the id are written over the end of the header, so that one write sends all.
unfoldable pub forward : TcpServer → ℕ → HttpReq → ℕ → ℕ → ℤ → Exec (TcpServer × List Request)
forward s p req request_length content_length now = do
  sel ← select_endpoint_time_based s.global_lb now
  let req_id = s.req_id
  _ ← require (leb 12 request_length)
  let raw_array_start_offset = request_length - 12
  raw_array ← write req.inbox.buf raw_array_start_offset (int_to_four_char content_length)
  raw_array ← write raw_array (raw_array_start_offset + 4) (long_to_8bytes req_id)
  send_buffer ← slice raw_array raw_array_start_offset (int_to_size (u32 (12 + content_length)))
  let req = record req {
    inbox = record { buf = raw_array; size = 0 };
    request_length = none;
    req_id = some req_id;
    ts_req_beg = sel.ts_req_beg;
  }
  let s = record (store s p req) {
    req_id = u64 (req_id + event_loop_num);
    global_lb = sel.balancer;
  }
  send_to_provider_agent s sel.endpoint p req_id send_buffer

-- The parser has been called. Without a first field the value that atoi reads is not initialised.
unfoldable pub take_parsed : TcpServer → ℕ → HttpReq → ℤ → Parsed → Exec (TcpServer × List Request)
take_parsed s p req now negative = done (store s p req, [])
take_parsed s p req now (header n value) = must value >>= λ value.
    let content_length = atoi value in
    if ltb req.inbox.size (int_to_size (u32 (content_length + n)))
    then done (store s p (record req { request_length = some n }), [])
    else forward s p (record req { request_length = some n }) n content_length now

-- `headers[0].value` is set by the parser in the same call, or not at all: when the header came with
-- an earlier read, what atoi reads is not initialised.
unfoldable pub first_field :
    Option ℕ → Exec (TcpServer × List Request) → Exec (TcpServer × List Request)
first_field (some request_length) parsed = fault
first_field none parsed = parsed

unfoldable pub take_request :
    (Bytes → Parsed) → TcpServer → ℕ → HttpReq → ℤ → Exec (TcpServer × List Request)
unfolding take_parsed first_field
take_request phr_parse_request s p req now =
    first_field req.request_length
      (take_parsed s p req now (phr_parse_request (take req.inbox.size req.inbox.buf)))

-- nread < 0: the connection is closed, and counted no more.
unfoldable pub close_client : TcpServer → HttpReq → Exec (TcpServer × List Request)
close_client s req = do
  client ← must req.client
  done (
    record s { global_conn_remain_count = s.global_conn_remain_count -ℤ pos 1 },
    uv_close client ∷ [],
  )

unfoldable pub c_read_connection_data :
    (Bytes → Parsed) → TcpServer → ℕ → Read → ℤ → Exec (TcpServer × List Request)
unfolding deref
c_read_connection_data phr_parse_request s p (arrived chunk) now = do
  req ← deref s p
  inbox ← receive req.inbox chunk
  take_request phr_parse_request s p (record req { inbox = inbox }) now
c_read_connection_data phr_parse_request s p again now = done (s, [])
c_read_connection_data phr_parse_request s p eof now = deref s p >>= λ req. close_client s req
c_read_connection_data phr_parse_request s p error now = deref s p >>= λ req. close_client s req
