-- ===== src/Consumer/Answer.antt =====
-- src/consumer_agent.c, c_read_from_provide_agents: the answers of one provider agent. `sent` is what
-- has been asked of libuv. get_wall_time is called once for each answer that is passed on: `clock n` is
-- what it returns when `n` have been.
use service_mesh_agent.Base.{
  ℕ, suc, ◌%◌, ◌^◌, List, [], ◌∷◌, ◌++◌, ltb, Bytes, Exec, done, exit, ◌>>=◌, must, require,
  get_elem?, set, write, slice, length, Option, none, some, false,
}
use service_mesh_agent.Base.Int.{ℤ, negsuc}
use service_mesh_agent.Codec.{bytes8_to_long}
use service_mesh_agent.Framing.{receive, drain}
use service_mesh_agent.LoadBalancer.{add_remain, finish_endpoint_task_time_based}
use service_mesh_agent.Uv.{Request, uv_write, uv_close, Read, arrived, again, eof, error}
use service_mesh_agent.Consumer.State.{TcpServer, hash_slot_num, deref, store}

-- The response goes to the client whose request stands in the slot of the id. The copy of it is in
-- the request's own package, of 4096 bytes.
unfoldable pub respond : ℕ → ℤ → Bytes → ℕ → TcpServer → ℕ → Exec (TcpServer × List Request)
unfolding deref
respond which now raw_array length_body s p = do
  http_conn ← deref s p
  lb ← finish_endpoint_task_time_based s.global_lb which http_conn.ts_req_beg now
  body ← slice raw_array 12 length_body
  response_package ← write http_conn.response_package 0 body
  client ← must http_conn.client
  done (
    record (store s p (record http_conn { response_package = response_package })) {
      global_lb = lb;
    },
    uv_write client body ∷ [],
  )

-- What becomes of an answer whose id has this slot; without a request it is a late one.
unfoldable pub answer_slot :
    ℕ → ℤ → Bytes → ℕ → TcpServer → List Request → Option ℕ → Exec (TcpServer × List Request)
unfolding respond
answer_slot which now raw_array length_body s sent (some p) =
    respond which now raw_array length_body s p >>= λ r. done (r.0, sent ++ r.1)
answer_slot which now raw_array length_body s sent none =
    add_remain s.global_lb which (negsuc 0) >>= λ lb. done (record s { global_lb = lb }, sent)

-- One whole answer: 12 bytes of header, then the HTTP response. The id is an int64_t; of a negative
-- one the remainder is negative.
unfoldable pub answer :
    ℕ → (ℕ → ℤ) → Bytes → ℕ → TcpServer × List Request → Exec (Bytes × (TcpServer × List Request))
unfolding answer_slot
answer which clock raw_array length_body (s, sent) = do
  id ← slice raw_array 4 8
  let req_id = bytes8_to_long id
  _ ← require (ltb req_id (2 ^ 63))
  slot ← must (get_elem? s.http_req_dict (req_id % hash_slot_num))
  r ← answer_slot which (clock (length sent)) raw_array length_body s sent slot
  done (raw_array, r)

unfoldable pub c_read_from_provide_agents :
    (ℕ → ℤ) → TcpServer → ℕ → Read → List Request → Exec (TcpServer × List Request)
c_read_from_provide_agents clock s which (arrived chunk) sent = do
  server ← must (get_elem? s.endpoint_servers which)
  received ← receive server.inbox chunk
  r ← drain 12 0 (answer which clock) (suc received.size) received (s, sent)
  let servers = set r.1.0.endpoint_servers which (record server { inbox = r.0 })
  done (record r.1.0 { endpoint_servers = servers }, r.1.1)
c_read_from_provide_agents clock s which again sent = done (s, sent)
c_read_from_provide_agents clock s which eof sent = do
  server ← must (get_elem? s.endpoint_servers which)
  stream ← must server.tcp_stream
  done (
    record s {
      endpoint_servers = set s.endpoint_servers which (record server { connected = false });
    },
    sent ++ uv_close stream ∷ [],
  )
c_read_from_provide_agents clock s which error sent = exit
