-- ===== src/Consumer/Sent.antt =====
-- src/consumer_agent.c: a request that has been sent is under way, and its answer will be passed to its
-- client.
use service_mesh_agent.Base.{
  ℕ, ◌%◌, ◌≡◌, ◌≢◌, sym, ap, ◌∙◌, [], ◌∷◌, Bytes, done, get_elem?, length, some, subst,
}
use native.Mathlib.Decide.{ℕ_discrete}
use service_mesh_agent.Base.Int.{ℤ}
use service_mesh_agent.LoadBalancer.{Selected, select_endpoint_time_based}
use service_mesh_agent.LoadBalancer.Finish.{IsSound}
use service_mesh_agent.LoadBalancer.Known.{Leaves, select-Leaves}
use service_mesh_agent.Uv.{uv_write}
use service_mesh_agent.Consumer.State.{HttpReq, TcpServer, hash_slot_num, default_package_size}
use service_mesh_agent.Consumer.Sending.{IsForwarded}
use service_mesh_agent.Consumer.Delivered.{
  IsWaiting, IsReady, client_in, client_of, written, writes,
}

-- A server whose requests in the dictionary are all under way, and a request of a client.
pub record IsServing (s : TcpServer) (p : ℕ) (req : HttpReq) (client : ℕ) : Type 0 where
  pub sound : IsSound s.global_lb
  pub full : length s.http_req_dict ≡ hash_slot_num
  pub waiting :
      (slot q : ℕ) → get_elem? s.http_req_dict slot ≡ some (some q) → IsWaiting s.requests q
  pub is_req : get_elem? s.requests p ≡ some (some req)
  pub is_client : req.client ≡ some client
  pub has_room : length req.response_package ≡ default_package_size

module _ (s s' : TcpServer) (p client : ℕ) (req : HttpReq) (sel : Selected)
    (i : IsServing s p req client) (f : IsForwarded s p req sel s') where
  sent-IsWaiting : IsWaiting s'.requests p
  sent-IsWaiting =
      let (req', at, empty, first, id, time, same_client, same_package) = f.emptied in
      record {
        req = req';
        client = client;
        is_req = at;
        is_client = same_client ∙ i.is_client;
        has_room = ap length same_package ∙ i.has_room;
      }

  others-IsWaiting : (q : ℕ) → q ≢ p → IsWaiting s.requests q → IsWaiting s'.requests q
  others-IsWaiting q n w = record {
    req = w.req;
    client = w.client;
    is_req = f.other_requests q n ∙ w.is_req;
    is_client = w.is_client;
    has_room = w.has_room;
  }

  still-IsWaiting : (q : ℕ) → IsWaiting s.requests q → IsWaiting s'.requests q
  still-IsWaiting q w = elim (ℕ_discrete q p) [
    | yes e ↦ subst (IsWaiting s'.requests) (sym e) sent-IsWaiting
    | no n ↦ others-IsWaiting q n w
  ]

  slots-IsWaiting :
      (slot q : ℕ) → get_elem? s'.http_req_dict slot ≡ some (some q) → IsWaiting s'.requests q
  slots-IsWaiting slot q e = elim (ℕ_discrete slot (s.req_id % hash_slot_num)) [
    | yes at ↦
        let same : p ≡ q =
          slot_injective (sym f.entered ∙ (ap (get_elem? s'.http_req_dict) (sym at) ∙ e)) in
        subst (IsWaiting s'.requests) same sent-IsWaiting
    | no n ↦ still-IsWaiting q (i.waiting slot q (sym (f.other_slots slot n) ∙ e))
  ]
    where
      slot_injective : {a b : ℕ} → some (some a) ≡ some (some b) → a ≡ b
      slot_injective h = cc

  pub sent-IsReady :
      (now : ℤ) → select_endpoint_time_based s.global_lb now ≡ done sel → IsReady sel.endpoint s'
  sent-IsReady now e = record {
    balancer =
        subst (Leaves sel.endpoint) (sym f.chosen) (select-Leaves s.global_lb now sel i.sound e);
    full = f.same_slots ∙ i.full;
    waiting = slots-IsWaiting;
  }

  pub sent-writes :
      (body : Bytes) → writes s' (record { id = s.req_id; body = body }) ≡ uv_write client body ∷ []
  unfolding sent-IsWaiting
  sent-writes body =
      let w = sent-IsWaiting in
      ap (λ o. written (client_of s' o) body) f.entered
      ∙ ap (λ o. written o body) (ap client_in w.is_req ∙ w.is_client)
