-- ===== src/Consumer/Slots.antt =====
-- src/consumer_agent.c: how long a request keeps its slot in the dictionary, whatever the callbacks of
-- its event loop do meanwhile.
use service_mesh_agent.Base.{
  ℕ, suc, ◌+◌, ◌-◌, ◌%◌, ◌^◌, ◌≡◌, refl, sym, ap, ◌∙◌, List, [], Bytes, Exec, done, must, require,
  get_elem?, set, length, some, none, Option, ◌⊎◌, inl, inr, >>=-eq-done, done_injective,
  Bool-cases, leb, ltb, take, ◌++◌, subst, write, slice,
}
use service_mesh_agent.Base.Int.{ℤ, pos, negsuc, ◌-ℤ◌}
use service_mesh_agent.Base.Words.{u32, u64, int_to_size}
use service_mesh_agent.Codec.{int_to_four_char, long_to_8bytes, bytes8_to_long}
use service_mesh_agent.Framing.{receive, drain}
use service_mesh_agent.LoadBalancer.{
  select_endpoint_time_based, add_remain, finish_endpoint_task_time_based,
}
use service_mesh_agent.Framing.Commute.{drain_keeps}
use service_mesh_agent.Text.{atoi}
use service_mesh_agent.Uv.{Request, Read, arrived, again, eof, error}
use service_mesh_agent.Consumer.State.{
  HttpReq, TcpServer, hash_slot_num, event_loop_num, deref, close_cb,
}
use service_mesh_agent.Consumer.Serve.{
  Parsed, header, negative, send_to_provider_agent, forward, take_parsed, first_field, take_request,
  close_client, c_read_connection_data,
}
use service_mesh_agent.Consumer.Events.{Event, client_read, provider_read, client_closed, step}
use service_mesh_agent.Consumer.Answer.{respond, answer_slot, answer, c_read_from_provide_agents}

-- The connections that are counted: as many as before, or one less.
abbrev pub NoMore : TcpServer → TcpServer → Type 0
NoMore s s' =
    (s'.global_conn_remain_count ≡ s.global_conn_remain_count)
    ⊎ (s'.global_conn_remain_count ≡ s.global_conn_remain_count -ℤ pos 1)

-- What a callback does to the dictionary and to the next id: nothing, or it enters one request. No
-- connection is counted that was not before.
pub data Effect (s s' : TcpServer) : Type 0 where
  keeps : s'.http_req_dict ≡ s.http_req_dict → s'.req_id ≡ s.req_id → NoMore s s' → Effect s s'
  enters :
      (p : ℕ)
      → s'.http_req_dict ≡ set s.http_req_dict (s.req_id % hash_slot_num) (some p)
      → s'.req_id ≡ u64 (s.req_id + event_loop_num)
      → NoMore s s'
      → Effect s s'

-- A callback that returns a state with the same dictionary and the same next id.
returns :
    (s : TcpServer) {r' r : TcpServer × List Request}
    → done r' ≡ done r
    → r'.0.http_req_dict ≡ s.http_req_dict
    → r'.0.req_id ≡ s.req_id
    → NoMore s r'.0
    → Effect s r.0
returns s h same_dict same_id no_more =
    let is = sym (done_injective h) in
    keeps (ap (λ x. x.0.http_req_dict) is ∙ same_dict) (ap (λ x. x.0.req_id) is ∙ same_id)
      (subst (λ (x : TcpServer × List Request). NoMore s x.0) (done_injective h) no_more)

forward-Effect :
    (s : TcpServer) (p : ℕ) (req : HttpReq) (n m : ℕ) (now : ℤ) (r : TcpServer × List Request)
    → forward s p req n m now ≡ done r
    → Effect s r.0
unfolding forward send_to_provider_agent
forward-Effect s p req n m now r h =
    let (sel, es, h₁) = >>=-eq-done (select_endpoint_time_based s.global_lb now) _ h in
    let (u, eu, h₂) = >>=-eq-done (require (leb 12 n)) _ h₁ in
    let (a, ea, h₃) = >>=-eq-done (write req.inbox.buf (n - 12) (int_to_four_char m)) _ h₂ in
    let (b, eb, h₄) = >>=-eq-done (write a (n - 12 + 4) (long_to_8bytes s.req_id)) _ h₃ in
    let (c, ec, h₅) = >>=-eq-done (slice b (n - 12) (int_to_size (u32 (12 + m)))) _ h₄ in
    let (e, ee, h₆) = >>=-eq-done (must (get_elem? s.endpoint_servers sel.endpoint)) _ h₅ in
    let (v, ev, h₇) =
      >>=-eq-done (require (ltb (s.req_id % hash_slot_num) (length s.http_req_dict))) _ h₆ in
    let (w, ew, h₈) = >>=-eq-done (must e.tcp_stream) _ h₇ in
    let is = done_injective h₈ in
    enters p (ap (λ x. x.0.http_req_dict) (sym is)) (ap (λ x. x.0.req_id) (sym is))
      (inl (ap (λ x. x.0.global_conn_remain_count) (sym is)))

take_parsed-Effect :
    (s : TcpServer) (p : ℕ) (req : HttpReq) (now : ℤ) (parsed : Parsed)
    (r : TcpServer × List Request)
    → take_parsed s p req now parsed ≡ done r
    → Effect s r.0
unfolding take_parsed
take_parsed-Effect s p req now negative r h = returns s h refl refl (inl refl)
take_parsed-Effect s p req now (header n none) r h = absurd (cc)
take_parsed-Effect s p req now (header n (some value)) r h =
    elim (Bool-cases (ltb req.inbox.size (int_to_size (u32 (atoi value + n))))) [
      | inl t ↦ returns s (rw t at h) refl refl (inl refl)
      | inr f ↦
          forward-Effect s p (record req { request_length = some n }) n (atoi value) now r
            (rw f at h)
    ]

first_field-parsed :
    (o : Option ℕ) (parsed : Exec (TcpServer × List Request)) (r : TcpServer × List Request)
    → first_field o parsed ≡ done r
    → parsed ≡ done r
unfolding first_field
first_field-parsed none parsed r h = h
first_field-parsed (some n) parsed r h = absurd (cc)

close_client-Effect :
    (s : TcpServer) (req : HttpReq) (r : TcpServer × List Request)
    → close_client s req ≡ done r
    → Effect s r.0
unfolding close_client
close_client-Effect s req r h =
    let (c, ec, h₁) = >>=-eq-done (must req.client) _ h in returns s h₁ refl refl (inr refl)

client-Effect :
    (phr_parse_request : Bytes → Parsed) (s : TcpServer) (p : ℕ) (read : Read) (now : ℤ)
    (r : TcpServer × List Request)
    → c_read_connection_data phr_parse_request s p read now ≡ done r
    → Effect s r.0
unfolding c_read_connection_data take_request
client-Effect phr_parse_request s p (arrived chunk) now r h =
    let (req, ed, h₁) = >>=-eq-done (deref s p) _ h in
    let (inbox, er, h₂) = >>=-eq-done (receive req.inbox chunk) _ h₁ in
    let req' : HttpReq = record req { inbox = inbox } in
    let parsed = phr_parse_request (take inbox.size inbox.buf) in
    take_parsed-Effect s p req' now parsed r
      (first_field-parsed req.request_length (take_parsed s p req' now parsed) r h₂)
client-Effect phr_parse_request s p again now r h = returns s h refl refl (inl refl)
client-Effect phr_parse_request s p eof now r h =
    let (req, ed, h₁) = >>=-eq-done (deref s p) _ h in close_client-Effect s req r h₁
client-Effect phr_parse_request s p error now r h =
    let (req, ed, h₁) = >>=-eq-done (deref s p) _ h in close_client-Effect s req r h₁

-- The dictionary, the next id and the connections that are counted are those given.
abbrev Has : List (Option ℕ) → ℕ → ℤ → TcpServer × List Request → Type 0
Has dict id count t =
    (t.0.http_req_dict ≡ dict) × (t.0.req_id ≡ id) × (t.0.global_conn_remain_count ≡ count)

module _ (which : ℕ) (dict : List (Option ℕ)) (id : ℕ) (count : ℤ) where
  slot-Has :
      (now : ℤ) (raw : Bytes) (n : ℕ) (s : TcpServer) (sent : List Request) (slot : Option ℕ)
      (r : TcpServer × List Request)
      → answer_slot which now raw n s sent slot ≡ done r
      → Has dict id count (s, sent)
      → Has dict id count r
  unfolding answer_slot respond
  slot-Has now raw n s sent none r h k =
      let (lb, el, h₁) = >>=-eq-done (add_remain s.global_lb which (negsuc 0)) _ h in
      subst (Has dict id count) (done_injective h₁) k
  slot-Has now raw n s sent (some p) r h k =
      let (q, eq, h₁) = >>=-eq-done (respond which now raw n s p) _ h in
      let (req, er, h₂) = >>=-eq-done (deref s p) _ eq in
      let (lb, el, h₃) =
        >>=-eq-done (finish_endpoint_task_time_based s.global_lb which req.ts_req_beg now) _ h₂ in
      let (body, eb, h₄) = >>=-eq-done (slice raw 12 n) _ h₃ in
      let (filled, ef, h₅) = >>=-eq-done (write req.response_package 0 body) _ h₄ in
      let (client, ec, h₆) = >>=-eq-done (must req.client) _ h₅ in
      subst (Has dict id count) (done_injective h₁) (
        subst (λ (x : TcpServer × List Request). Has dict id count (x.0, sent ++ x.1))
          (done_injective h₆) k)

  answer-Has :
      (clock : ℕ → ℤ) (raw : Bytes) (n : ℕ) (s : TcpServer × List Request)
      (r : Bytes × (TcpServer × List Request))
      → answer which clock raw n s ≡ done r
      → Has dict id count s
      → Has dict id count r.1
  unfolding answer
  answer-Has clock raw n (s, sent) r h k =
      let (b, eb, h₁) = >>=-eq-done (slice raw 4 8) _ h in
      let (u, eu, h₂) = >>=-eq-done (require (ltb (bytes8_to_long b) (2 ^ 63))) _ h₁ in
      let (slot, es, h₃) =
        >>=-eq-done (must (get_elem? s.http_req_dict (bytes8_to_long b % hash_slot_num))) _ h₂ in
      let (q, eq, h₄) =
        >>=-eq-done (answer_slot which (clock (length sent)) raw n s sent slot) _ h₃ in
      subst (λ (x : Bytes × (TcpServer × List Request)). Has dict id count x.1) (done_injective h₄)
        (slot-Has (clock (length sent)) raw n s sent slot q eq k)

provider-Effect :
    (clock : ℕ → ℤ) (s : TcpServer) (which : ℕ) (read : Read) (sent : List Request)
    (r : TcpServer × List Request)
    → c_read_from_provide_agents clock s which read sent ≡ done r
    → Effect s r.0
unfolding c_read_from_provide_agents
provider-Effect clock s which (arrived chunk) sent r h =
    let (server, es, h₁) = >>=-eq-done (must (get_elem? s.endpoint_servers which)) _ h in
    let (i, ei, h₂) = >>=-eq-done (receive server.inbox chunk) _ h₁ in
    let (q, eq, h₃) = >>=-eq-done (drain 12 0 (answer which clock) (suc i.size) i (s, sent)) _ h₂ in
    let (same_dict, same_id, same_count) =
      drain_keeps 12 0 (answer which clock)
        (Has s.http_req_dict s.req_id s.global_conn_remain_count)
        (answer-Has which s.http_req_dict s.req_id s.global_conn_remain_count clock) (suc i.size) i
        (s, sent) q eq (refl, refl, refl) in
    returns s h₃ same_dict same_id (inl same_count)
provider-Effect clock s which again sent r h = returns s h refl refl (inl refl)
provider-Effect clock s which eof sent r h =
    let (server, es, h₁) = >>=-eq-done (must (get_elem? s.endpoint_servers which)) _ h in
    let (stream, et, h₂) = >>=-eq-done (must server.tcp_stream) _ h₁ in
    returns s h₂ refl refl (inl refl)
provider-Effect clock s which error sent r h = absurd (cc)

pub step-Effect :
    (phr_parse_request : Bytes → Parsed) (e : Event) (s s' : TcpServer)
    → step phr_parse_request e s ≡ done s'
    → Effect s s'
unfolding step close_cb
step-Effect phr_parse_request (client_read p read now) s s' h =
    let (r, er, h₁) = >>=-eq-done (c_read_connection_data phr_parse_request s p read now) _ h in
    subst (Effect s) (done_injective h₁) (client-Effect phr_parse_request s p read now r er)
step-Effect phr_parse_request (provider_read which read clock) s s' h =
    let (r, er, h₁) = >>=-eq-done (c_read_from_provide_agents clock s which read []) _ h in
    subst (Effect s) (done_injective h₁) (provider-Effect clock s which read [] r er)
step-Effect phr_parse_request (client_closed p) s s' h =
    let (req, er, h₁) = >>=-eq-done (deref s p) _ h in
    let is = sym (done_injective h₁) in
    keeps (ap (λ x. x.http_req_dict) is) (ap (λ x. x.req_id) is)
      (inl (ap (λ x. x.global_conn_remain_count) is))
