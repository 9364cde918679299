-- ===== src/Provider/Relay.antt =====
-- src/provider_agent.c, p_read_connection_data_http_req and p_on_read_results. What malloc returns
-- for a package holds any 4096 bytes; they are a parameter. `sent` is what has been asked of libuv.
use service_mesh_agent.Base.{
  ℕ, ◌+◌, ◌-◌, ◌^◌, List, [], ◌∷◌, ◌++◌, ◌==◌, if◌then◌else◌, Bytes, Exec, done, ◌>>=◌, must,
  get_elem?, suc, Option, none, slice, write, codes, drop, take,
}
use service_mesh_agent.Base.Words.{u16, u32, int_to_size}
use service_mesh_agent.Codec.{int_to_four_char, bytes8_to_long, int_to_string}
use service_mesh_agent.Framing.{Inbox, room, receive, drain}
use service_mesh_agent.Tokenizer.Simd.{Build}
use service_mesh_agent.Uv.{
  Request, uv_write, uv_close, Heap, malloc, Read, arrived, again, eof, error,
}
use service_mesh_agent.Tokenizer.Package.{generate_res_in_place}

abbrev pub package_size : ℕ
package_size = 4096

-- Connections are named by their uv_tcp_t, the attempt to connect by its uv_connect_t. `address` is the
-- block of the relay itself, `raw_buf1` and `raw_buf2` are those of its buffers, whose bytes are in
-- the inboxes.
pub record TcpRelay : Type 0 where
  pub address : ℕ
  pub raw_buf1 : ℕ
  pub raw_buf2 : ℕ
  pub tcp_conn_1 : Option ℕ
  pub tcp_conn_2 : Option ℕ
  pub dubbo_connection : Option ℕ
  pub inbox_1 : Inbox
  pub inbox_2 : Inbox
  pub max_buffer_size : ℕ

-- `buf1` and `buf2` are the bytes that malloc leaves in the buffers.
unfoldable pub init_tcp_relay_t : Bytes → Bytes → ℕ → Heap → TcpRelay × Heap
init_tcp_relay_t buf1 buf2 size h =
    let (relay, h) = malloc h in
    let (raw_buf1, h) = malloc h in
    let (raw_buf2, h) = malloc h in
    (
      record {
        address = relay;
        raw_buf1 = raw_buf1;
        raw_buf2 = raw_buf2;
        tcp_conn_1 = none;
        tcp_conn_2 = none;
        dubbo_connection = none;
        inbox_1 = record { buf = buf1; size = 0 };
        inbox_2 = record { buf = buf2; size = 0 };
        max_buffer_size = size;
      },
      h,
    )

-- How many bytes libuv may read, behind those that are there.
unfoldable pub p_alloc_buffer1 : TcpRelay → ℕ
p_alloc_buffer1 relay = room relay.max_buffer_size relay.inbox_1

unfoldable pub p_alloc_buffer2 : TcpRelay → ℕ
p_alloc_buffer2 relay = room relay.max_buffer_size relay.inbox_2

-- nread < 0, of either connection: an error is logged, and the relay closes.
unfoldable pub close_relay : TcpRelay → List Request → Exec (TcpRelay × List Request)
close_relay relay sent = must relay.tcp_conn_1 >>= λ conn. done (relay, sent ++ uv_close conn ∷ [])

-- One whole request of the consumer agent: 12 bytes of header, then the body of the POST. The int
-- becomes a short in the call.
unfoldable pub relay_request :
    Build → Bytes → Option ℕ → Bytes → ℕ → List Request → Exec (Bytes × List Request)
relay_request build dubbo_package tcp_conn_2 raw_buf1 package_length sent = do
  id ← slice raw_buf1 4 8
  let req_id = bytes8_to_long id
  r ← generate_res_in_place build dubbo_package (drop 12 raw_buf1) (u16 package_length) req_id
  conn ← must tcp_conn_2
  local_buf ← slice r.1.res 0 r.1.offset
  done (take 12 raw_buf1 ++ r.0, sent ++ uv_write conn local_buf ∷ [])

unfoldable pub p_read_connection_data_http_req :
    Build → Bytes → TcpRelay → Read → List Request → Exec (TcpRelay × List Request)
p_read_connection_data_http_req build fresh relay (arrived chunk) sent = do
  received ← receive relay.inbox_1 chunk
  r ← drain 12 0 (relay_request build fresh relay.tcp_conn_2) (suc received.size) received sent
  done (record relay { inbox_1 = r.0 }, r.1)
p_read_connection_data_http_req build fresh relay again sent = done (relay, sent)
p_read_connection_data_http_req build fresh relay eof sent = close_relay relay sent
p_read_connection_data_http_req build fresh relay error sent = close_relay relay sent

abbrev pub response_template : Bytes
response_template = codes "HTTP/1.1 200 OK\r\nContent-Length:   \r\n\r\n"

-- The HTTP response: the template, the digits of the length in it, and behind it the hash that the
-- dubbo server returned, whose body is two bytes, the hash and a line feed. A negative length is
-- asked of memcpy as a size_t.
unfoldable pub build_response : Bytes → Bytes → ℕ → Exec Bytes
build_response response_all raw_buf2 len = do
  let hash_length = u32 (len + (2 ^ 32 - 3))
  response_all ← write response_all 12 response_template
  response_all ← write response_all (12 + 33) (int_to_string hash_length)
  hash_res ← slice raw_buf2 18 (int_to_size hash_length)
  response_all ← write response_all (12 + 39) hash_res
  let res_current_length = 39 + hash_length
  response_all ← write response_all 0 (int_to_four_char res_current_length)
  id ← slice raw_buf2 4 8
  response_all ← write response_all 4 id
  slice response_all 0 (res_current_length + 12)

-- One whole message of the dubbo server, answered if its status is 20.
unfoldable pub relay_result :
    Bytes → Option ℕ → Bytes → ℕ → List Request → Exec (Bytes × List Request)
relay_result fresh tcp_conn_1 raw_buf2 len sent = do
  status ← must (get_elem? raw_buf2 3)
  if status == 20
      then (do
        local_buf ← build_response fresh raw_buf2 len
        conn ← must tcp_conn_1
        done (raw_buf2, sent ++ uv_write conn local_buf ∷ []))
      else done (raw_buf2, sent)

unfoldable pub p_on_read_results :
    Bytes → TcpRelay → Read → List Request → Exec (TcpRelay × List Request)
p_on_read_results fresh relay (arrived chunk) sent = do
  received ← receive relay.inbox_2 chunk
  r ← drain 16 12 (relay_result fresh relay.tcp_conn_1) (suc received.size) received sent
  done (record relay { inbox_2 = r.0 }, r.1)
p_on_read_results fresh relay again sent = done (relay, sent)
p_on_read_results fresh relay eof sent = close_relay relay sent
p_on_read_results fresh relay error sent = close_relay relay sent
