-- ===== src/Consumer/Sending.antt =====
-- src/consumer_agent.c, forward: what is sent for a whole request, and what is kept.
use service_mesh_agent.Base.{
  ℕ, ◌+◌, ◌-◌, ◌%◌, ◌^◌, ◌<◌, ◌≡◌, refl, sym, ap, ◌∙◌, [], ◌∷◌, ◌++◌, Bytes, done, ◌>>=◌, must,
  some, none, length, set, get_elem?, arith, slice, write, append_assoc, length-append, le→leb,
  lt→ltb, write_over, slice_of_append, get_elem?-set_self, get_elem?-set_ne, length-set, ◌≢◌,
}
use service_mesh_agent.Base.Int.{ℤ}
use service_mesh_agent.Base.Words.{u64, int_to_size_small}
use service_mesh_agent.Codec.{int_to_four_char, long_to_8bytes, le_bytes}
use service_mesh_agent.LoadBalancer.{Selected, select_endpoint_time_based}
use service_mesh_agent.Uv.{uv_write}
use service_mesh_agent.Consumer.State.{
  HttpReq, EndpointServer, TcpServer, hash_slot_num, event_loop_num, deref, store,
}
use service_mesh_agent.Consumer.Serve.{send_to_provider_agent, forward}

-- What goes to the provider agent: length, id, body.
abbrev pub message : ℕ → Bytes → Bytes
message id body = int_to_four_char (length body) ++ (long_to_8bytes id ++ body)

-- The header has at least twelve bytes, and they are written over.
pub message_in_place :
    (h t₄ t₈ body rest : Bytes) (id : ℕ)
    → length t₄ ≡ 4
    → length t₈ ≡ 8
    → (raw : Bytes) × (write
          (h ++ (t₄ ++ (t₈ ++ (body ++ rest))))
          (length h)
          (int_to_four_char (length body))
        ≡ done raw)
      × (write raw (length h + 4) (long_to_8bytes id) ≡ done (h ++ (message id body ++ rest)))
      × (slice (h ++ (message id body ++ rest)) (length h) (12 + length body)
          ≡ done (message id body))
unfolding long_to_8bytes le_bytes
message_in_place h t₄ t₈ body rest id e₄ e₈ =
    let four = int_to_four_char (length body) in
    let eight = long_to_8bytes id in
    let at : length (h ++ four) ≡ length h + 4 = omega (arith, length-append h four) in
    let size : length (message id body) ≡ 12 + length body = omega arith in
    let raw = h ++ (four ++ (t₈ ++ (body ++ rest))) in
    (
      raw,
      write_over h t₄ four (t₈ ++ (body ++ rest)) (omega (arith, e₄)),
      ap (λ n. write raw n eight) (sym at)
          ∙ (ap (λ b. write b (length (h ++ four)) eight)
                (sym (append_assoc h four (t₈ ++ (body ++ rest))))
              ∙ (write_over (h ++ four) t₈ eight (body ++ rest) (omega (arith, e₈))
                  ∙ ap done (append_assoc h four (eight ++ (body ++ rest))))),
      ap (λ n. slice (h ++ (message id body ++ rest)) (length h) n) (sym size)
          ∙ slice_of_append h (message id body) rest,
    )

-- What holds after `req`, that `p` points to, has been sent: it is entered under the next id and empty
-- for the next request, and nothing else has changed.
pub record IsForwarded (s : TcpServer) (p : ℕ) (req : HttpReq) (sel : Selected) (s' : TcpServer)
    : Type 0 where
  pub next_id : s'.req_id ≡ u64 (s.req_id + event_loop_num)
  pub entered : get_elem? s'.http_req_dict (s.req_id % hash_slot_num) ≡ some (some p)
  pub chosen : s'.global_lb ≡ sel.balancer
  pub emptied :
      (req' : HttpReq) × (get_elem? s'.requests p ≡ some (some req'))
      × (req'.inbox.size ≡ 0)
      × (req'.request_length ≡ none)
      × (req'.req_id ≡ some s.req_id)
      × (req'.ts_req_beg ≡ sel.ts_req_beg)
      × (req'.client ≡ req.client)
      × (req'.response_package ≡ req.response_package)
  pub other_slots :
      (i : ℕ)
      → i ≢ s.req_id % hash_slot_num
      → get_elem? s'.http_req_dict i ≡ get_elem? s.http_req_dict i
  pub other_requests : (q : ℕ) → q ≢ p → get_elem? s'.requests q ≡ get_elem? s.requests q
  pub same_slots : length s'.http_req_dict ≡ length s.http_req_dict
  pub same_endpoints : s'.endpoint_servers ≡ s.endpoint_servers

-- The request when it has been sent, and the state.
abbrev as_sent : TcpServer → HttpReq → Bytes → Selected → HttpReq
as_sent s req buf sel = record req {
  inbox = record { buf = buf; size = 0 };
  request_length = none;
  req_id = some s.req_id;
  ts_req_beg = sel.ts_req_beg;
}

abbrev forwarded : TcpServer → ℕ → HttpReq → Bytes → Selected → TcpServer
forwarded s p req buf sel = record (store s p (as_sent s req buf sel)) {
  req_id = u64 (s.req_id + event_loop_num);
  global_lb = sel.balancer;
  http_req_dict = set s.http_req_dict (s.req_id % hash_slot_num) (some p);
}

pub forwarded-IsForwarded :
    (s : TcpServer) (p : ℕ) (req : HttpReq) (buf : Bytes) (sel : Selected)
    → s.req_id % hash_slot_num < length s.http_req_dict
    → p < length s.requests
    → IsForwarded s p req sel (forwarded s p req buf sel)
forwarded-IsForwarded s p req buf sel slot live =
    let req' = as_sent s req buf sel in
    let at = s.req_id % hash_slot_num in
    record {
      next_id = refl;
      entered = get_elem?-set_self s.http_req_dict at (some p) slot;
      chosen = refl;
      emptied = (
        req',
        get_elem?-set_self s.requests p (some req') live,
        refl,
        refl,
        refl,
        refl,
        refl,
        refl,
      );
      other_slots = λ i n. get_elem?-set_ne s.http_req_dict at i (some p) (λ e. n (sym e));
      other_requests = λ q n. get_elem?-set_ne s.requests p q (some req') (λ e. n (sym e));
      same_slots = length-set s.http_req_dict at (some p);
      same_endpoints = refl;
    }

pub forward_lem :
    (s : TcpServer) (p : ℕ) (req : HttpReq) (h t₄ t₈ body rest : Bytes) (now : ℤ) (sel : Selected)
    (endpoint : EndpointServer) (stream : ℕ)
    → req.inbox.buf ≡ h ++ (t₄ ++ (t₈ ++ (body ++ rest)))
    → length t₄ ≡ 4
    → length t₈ ≡ 8
    → 12 + length body < 2 ^ 31
    → select_endpoint_time_based s.global_lb now ≡ done sel
    → get_elem? s.endpoint_servers sel.endpoint ≡ some endpoint
    → endpoint.tcp_stream ≡ some stream
    → length s.http_req_dict ≡ hash_slot_num
    → p < length s.requests
    → (s' : TcpServer) × (forward s p req (length h + 12) (length body) now
        ≡ done (s', uv_write stream (message s.req_id body) ∷ []))
      × IsForwarded s p req sel s'
unfolding forward send_to_provider_agent deref
forward_lem s p req h t₄ t₈ body rest now sel endpoint stream eb e₄ e₈ small es ee et dict live =
    let (raw, w₁, w₂, sl) = message_in_place h t₄ t₈ body rest s.req_id e₄ e₈ in
    let at : length h + 12 - 12 ≡ length h = omega arith in
    let slot : s.req_id % hash_slot_num < length s.http_req_dict = omega (arith, dict) in
    (
      forwarded s p req (h ++ (message s.req_id body ++ rest)) sel,
      rw
          (
            es,
            ◌>>=◌,
            le→leb 12 (length h + 12) (omega arith),
            at,
            eb,
            w₁,
            w₂,
            int_to_size_small (12 + length body) small,
            sl,
            ee,
            must,
            lt→ltb (s.req_id % hash_slot_num) (length s.http_req_dict) slot,
            et,
          )
          refl,
      forwarded-IsForwarded s p req (h ++ (message s.req_id body ++ rest)) sel slot live,
    )
