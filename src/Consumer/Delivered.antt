-- ===== src/Consumer/Delivered.antt =====
-- src/consumer_agent.c: every answer of a whole connection, on a server whose requests under way all
-- have a client.
use service_mesh_agent.Base.{
  ℕ, ◌+◌, ◌%◌, ◌≤◌, ◌≡◌, refl, sym, ap, ◌∙◌, List, [], ◌∷◌, ◌++◌, Bytes, done, ◌>>=◌, must,
  get_elem?, set, some, none, Option, length, drop, arith, write_behind, get_elem?-set_self,
  get_elem?-set_ne, get_elem?_in, lt_of_get_elem?, length-append, length-drop, append-nil,
  append_assoc, ap₂, concat_map,
}
use native.Mathlib.Decide.{ℕ_discrete}
use service_mesh_agent.Base.Int.{ℤ, negsuc}
use service_mesh_agent.Framing.Stream.{IsAll, apply_all}
use service_mesh_agent.LoadBalancer.Known.{Leaves, finish-Leaves, add_remain-Leaves}
use service_mesh_agent.Uv.{Request, uv_write}
use service_mesh_agent.Consumer.State.{
  HttpReq, TcpServer, hash_slot_num, default_package_size, default_response_size, deref, store,
}
use service_mesh_agent.Consumer.Deliver.{Reply, IsReply, deliver_slot, deliver}

-- The client of the request that `p` points to.
abbrev pub client_in : Option (Option HttpReq) → Option ℕ
client_in (some (some req)) = req.client
client_in (some none) = none
client_in none = none

abbrev pub client_at : List (Option HttpReq) → ℕ → Option ℕ
client_at requests p = client_in (get_elem? requests p)

-- What an answer writes: its body, to the client whose request stands in the slot of its id.
abbrev pub client_of : TcpServer → Option (Option ℕ) → Option ℕ
client_of s (some (some p)) = client_at s.requests p
client_of s (some none) = none
client_of s none = none

abbrev pub written : Option ℕ → Bytes → List Request
written (some client) body = uv_write client body ∷ []
written none body = []

abbrev pub writes : TcpServer → Reply → List Request
writes s m = written (client_of s (get_elem? s.http_req_dict (m.id % hash_slot_num))) m.body

-- A request under way: it has a client, and room for an answer.
pub record IsWaiting (requests : List (Option HttpReq)) (p : ℕ) : Type 0 where
  pub req : HttpReq
  pub client : ℕ
  pub is_req : get_elem? requests p ≡ some (some req)
  pub is_client : req.client ≡ some client
  pub has_room : length req.response_package ≡ default_package_size

-- Each request in the dictionary is under way, and the balancer knows the endpoint.
pub record IsReady (which : ℕ) (s : TcpServer) : Type 0 where
  pub balancer : Leaves which s.global_lb
  pub full : length s.http_req_dict ≡ hash_slot_num
  pub waiting :
      (slot p : ℕ) → get_elem? s.http_req_dict slot ≡ some (some p) → IsWaiting s.requests p

-- A request has its answer; the others are as before.
module _ (requests : List (Option HttpReq)) (p : ℕ) (w : IsWaiting requests p) (filled : Bytes)
    (size : length filled ≡ default_package_size) where
  abbrev filled_req : HttpReq
  filled_req = record w.req { response_package = filled }

  abbrev requests' : List (Option HttpReq)
  requests' = set requests p (some filled_req)

  fill-IsWaiting : (q : ℕ) → IsWaiting requests q → IsWaiting requests' q
  fill-IsWaiting q v = elim (ℕ_discrete p q) [
    | yes e ↦ record {
      req = filled_req;
      client = w.client;
      is_req =
          ap (get_elem? requests') (sym e)
          ∙ get_elem?-set_self requests p (some filled_req) (lt_of_get_elem? requests p w.is_req);
      is_client = w.is_client;
      has_room = size;
    }
    | no n ↦ record {
      req = v.req;
      client = v.client;
      is_req = get_elem?-set_ne requests p q (some filled_req) n ∙ v.is_req;
      is_client = v.is_client;
      has_room = v.has_room;
    }
  ]

  fill-client_at : (q : ℕ) → client_at requests' q ≡ client_at requests q
  fill-client_at q = elim (ℕ_discrete p q) [
    | yes e ↦
        ap (client_at requests') (sym e)
        ∙ (ap client_in (
              get_elem?-set_self requests p (some filled_req) (lt_of_get_elem? requests p w.is_req))
            ∙ (sym (ap client_in w.is_req) ∙ ap (client_at requests) e))
    | no n ↦ ap client_in (get_elem?-set_ne requests p q (some filled_req) n)
  ]

-- What one answer leaves as it was.
pub record Keeps (s s' : TcpServer) : Type 0 where
  pub same_dict : s'.http_req_dict ≡ s.http_req_dict
  pub same_clients : (p : ℕ) → client_at s'.requests p ≡ client_at s.requests p

Keeps-client_of :
    (s s' : TcpServer) → Keeps s s' → (o : Option (Option ℕ)) → client_of s' o ≡ client_of s o
Keeps-client_of s s' k (some (some p)) = k.same_clients p
Keeps-client_of s s' k (some none) = refl
Keeps-client_of s s' k none = refl

Keeps-writes : (s s' : TcpServer) → Keeps s s' → (m : Reply) → writes s' m ≡ writes s m
Keeps-writes s s' k m =
    ap (λ o. written o m.body)
      (Keeps-client_of s s' k (get_elem? s'.http_req_dict (m.id % hash_slot_num))
        ∙ ap (λ d. client_of s (get_elem? d (m.id % hash_slot_num))) k.same_dict)

module _ (which : ℕ) (s : TcpServer) (sent : List Request) (ready : IsReady which s) where
  deliver_slot-IsReady :
      (now : ℤ) (body : Bytes) (slot : Option ℕ) (at : ℕ)
      → get_elem? s.http_req_dict at ≡ some slot
      → length body + 12 ≤ default_response_size
      → (s' : TcpServer) × (deliver_slot which now body s sent slot
          ≡ done (s', sent ++ written (client_of s (some slot)) body))
        × IsReady which s'
        × Keeps s s'
  unfolding deliver_slot deref
  deliver_slot-IsReady now body none at e fits =
      let (lb, ran, kept) =
        add_remain-Leaves s.global_lb which ready.balancer.sound ready.balancer.known (negsuc 0) in
      (
        record s { global_lb = lb },
        rw (ran, ◌>>=◌, append-nil sent) refl,
        record { balancer = kept; full = ready.full; waiting = ready.waiting },
        record { same_dict = refl; same_clients = λ p. refl },
      )
  deliver_slot-IsReady now body (some p) at e fits =
      let w = ready.waiting at p e in
      let (lb, ran, kept) =
        finish-Leaves s.global_lb which ready.balancer.sound ready.balancer.known w.req.ts_req_beg
          now in
      let tail = drop (length body) w.req.response_package in
      let size : length (body ++ tail) ≡ default_package_size = omega (
        arith,
        w.has_room,
        length-append body tail,
        length-drop (length body) w.req.response_package,
      ) in
      let req' : HttpReq = record w.req { response_package = body ++ tail } in
      (
        record (store s p req') { global_lb = lb },
        rw
            (
              w.is_req,
              must,
              ◌>>=◌,
              ran,
              write_behind [] body w.req.response_package (omega (arith, w.has_room)),
              w.is_client,
            )
            refl,
        record {
          balancer = kept;
          full = ready.full;
          waiting = λ slot q f.
              fill-IsWaiting s.requests p w (body ++ tail) size q (ready.waiting slot q f);
        },
        record {
          same_dict = refl;
          same_clients = fill-client_at s.requests p w (body ++ tail) size;
        },
      )

  pub deliver-IsReady :
      (clock : ℕ → ℤ) (m : Reply)
      → IsReply m
      → (s' : TcpServer) × (deliver which clock m (s, sent) ≡ done (s', sent ++ writes s m))
        × IsReady which s'
        × Keeps s s'
  unfolding deliver
  deliver-IsReady clock m ok =
      let (slot, e) =
        get_elem?_in s.http_req_dict (m.id % hash_slot_num) (omega (arith, ready.full)) in
      let (s', ran, r, k) =
        deliver_slot-IsReady (clock (length sent)) m.body slot (m.id % hash_slot_num) e ok.1 in
      (s', rw (e, must, ◌>>=◌) ran, r, k)

-- One answer after the other.
pub delivers_all :
    (which : ℕ) (clock : ℕ → ℤ) (ms : List Reply) (s : TcpServer) (sent : List Request)
    → IsReady which s
    → IsAll IsReply ms
    → (s' : TcpServer) × (apply_all (deliver which clock) ms (s, sent)
        ≡ done (s', sent ++ concat_map (writes s) ms))
      × IsReady which s'
unfolding IsAll
delivers_all which clock [] s sent ready all = (s, rw (append-nil sent) refl, ready)
delivers_all which clock (m ∷ ms) s sent ready all =
    let (s₁, ran₁, r₁, k₁) = deliver-IsReady which s sent ready clock m all.0 in
    let (s₂, ran₂, r₂) = delivers_all which clock ms s₁ (sent ++ writes s m) r₁ all.1 in
    (
      s₂,
      rw (ran₁, ◌>>=◌)
          (ran₂
            ∙ ap (λ (l : List Request). done (s₂, l))
                (append_assoc sent (writes s m) (concat_map (writes s₁) ms)
                  ∙ ap (λ l. sent ++ (writes s m ++ l)) (same_writes s s₁ k₁ ms))),
      r₂,
    )
  where
    same_writes :
        (s s' : TcpServer)
        → Keeps s s'
        → (ms : List Reply) → concat_map (writes s') ms ≡ concat_map (writes s) ms
    same_writes s s' k [] = refl
    same_writes s s' k (m ∷ ms) = ap₂ ◌++◌ (Keeps-writes s s' k m) (same_writes s s' k ms)
