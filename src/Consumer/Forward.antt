-- ===== src/Consumer/Forward.antt =====
-- src/consumer_agent.c: what c_read_connection_data does with a request that has wholly arrived, and
-- with one that arrives in pieces.
use service_mesh_agent.Base.{
  ℕ, ◌+◌, ◌^◌, ◌≤◌, ◌<◌, ◌≡◌, refl, ◌∙◌, [], ◌∷◌, ◌++◌, Bytes, done, fault, ◌>>=◌, must, some, none,
  length, take, get_elem?, arith, lt→ltb, le→not-ltb, get_elem?-set_self,
}
use service_mesh_agent.Base.Int.{ℤ}
use service_mesh_agent.Base.Words.{u32, int_to_size, int_to_size_small}
use service_mesh_agent.Framing.{Inbox, receive}
use service_mesh_agent.LoadBalancer.{Selected, select_endpoint_time_based}
use service_mesh_agent.Text.{atoi}
use service_mesh_agent.Uv.{uv_write, arrived}
use service_mesh_agent.Consumer.State.{HttpReq, EndpointServer, TcpServer, hash_slot_num, deref}
use service_mesh_agent.Consumer.Serve.{
  Parsed, header, forward, take_request, c_read_connection_data,
}
use service_mesh_agent.Consumer.Sending.{message, IsForwarded, forward_lem}

-- With `chunk` the whole request is there: a header of at least twelve bytes, which the parser takes
-- as such, and a body of the length that the first field of the header says.
pub record IsWhole (phr_parse_request : Bytes → Parsed) (req : HttpReq) (chunk body : Bytes)
    : Type 0 where
  pub inbox : Inbox
  pub value : Bytes
  pub head : Bytes
  pub four : Bytes
  pub eight : Bytes
  pub rest : Bytes
  pub is_first : req.request_length ≡ none
  pub received : receive req.inbox chunk ≡ done inbox
  pub parsed :
      phr_parse_request (take inbox.size inbox.buf) ≡ header (length head + 12) (some value)
  pub counted : atoi value ≡ length body
  pub laid : inbox.buf ≡ head ++ (four ++ (eight ++ (body ++ rest)))
  pub is_four : length four ≡ 4
  pub is_eight : length eight ≡ 8
  pub all_there : length head + 12 + length body ≤ inbox.size
  pub small : length head + 12 + length body < 2 ^ 31

-- A request that arrives whole with its last read is sent to the endpoint that the balancer selects,
-- as length, id and body; it is entered under its id, its buffer is empty for the next, the next
-- id is two further, and the other requests and slots are as before. What lies behind the body is
-- dropped.
pub whole_request-IsForwarded :
    (phr_parse_request : Bytes → Parsed) (s : TcpServer) (p : ℕ) (req : HttpReq)
    (chunk body : Bytes) (now : ℤ) (sel : Selected) (endpoint : EndpointServer) (stream : ℕ)
    → deref s p ≡ done req
    → IsWhole phr_parse_request req chunk body
    → select_endpoint_time_based s.global_lb now ≡ done sel
    → get_elem? s.endpoint_servers sel.endpoint ≡ some endpoint
    → endpoint.tcp_stream ≡ some stream
    → length s.http_req_dict ≡ hash_slot_num
    → p < length s.requests
    → (s' : TcpServer) × (c_read_connection_data phr_parse_request s p (arrived chunk) now
        ≡ done (s', uv_write stream (message s.req_id body) ∷ []))
      × IsForwarded s p req sel s'
unfolding c_read_connection_data take_request
whole_request-IsForwarded phr_parse_request s p req chunk body now sel endpoint stream ed w es ee et
      dict live =
    let n = length w.head + 12 in
    let req' : HttpReq = record req { inbox = w.inbox; request_length = some n } in
    let (s', ef, ok) =
      forward_lem s p req' w.head w.four w.eight body w.rest now sel endpoint stream w.laid
        w.is_four w.is_eight (omega (arith, w.small)) es ee et dict live in
    let sum : int_to_size (u32 (length body + n)) ≡ length body + n =
      int_to_size_small (length body + n) (omega (arith, w.small)) in
    let step : c_read_connection_data phr_parse_request s p (arrived chunk) now
        ≡ forward s p req' n (length body) now =
      rw
        (
          ed,
          ◌>>=◌,
          w.received,
          w.is_first,
          w.parsed,
          must,
          w.counted,
          sum,
          le→not-ltb w.inbox.size (length body + n) (omega (arith, w.all_there)),
        )
        refl in
    (
      s',
      step ∙ ef,
      record {
        next_id = ok.next_id;
        entered = ok.entered;
        chosen = ok.chosen;
        emptied = ok.emptied;
        other_slots = ok.other_slots;
        other_requests = ok.other_requests;
        same_slots = ok.same_slots;
        same_endpoints = ok.same_endpoints;
      },
    )

-- A request whose header is complete with one read and whose body is not: the next read takes the
-- length of the body from a header that was never filled in.
pub split_request_faults :
    (phr_parse_request : Bytes → Parsed) (s : TcpServer) (p : ℕ) (req : HttpReq)
    (chunk chunk₂ : Bytes) (inbox inbox₂ : Inbox) (n : ℕ) (value : Bytes) (now now₂ : ℤ)
    → deref s p ≡ done req
    → req.request_length ≡ none
    → receive req.inbox chunk ≡ done inbox
    → phr_parse_request (take inbox.size inbox.buf) ≡ header n (some value)
    → inbox.size < int_to_size (u32 (atoi value + n))
    → receive inbox chunk₂ ≡ done inbox₂
    → p < length s.requests
    → (c_read_connection_data phr_parse_request s p (arrived chunk) now >>= λ r.
        c_read_connection_data phr_parse_request r.0 p (arrived chunk₂) now₂)
      ≡ fault
unfolding c_read_connection_data take_request deref
split_request_faults phr_parse_request s p req chunk chunk₂ inbox inbox₂ n value now now₂ ed en er
      ep short er₂ live =
    let req' : HttpReq = record req { inbox = inbox; request_length = some n } in
    rw (ed, ◌>>=◌, er, en, ep, must, lt→ltb inbox.size (int_to_size (u32 (atoi value + n))) short)
      (rw (get_elem?-set_self s.requests p (some req') live, must, ◌>>=◌, er₂) refl)
