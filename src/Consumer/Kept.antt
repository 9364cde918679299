-- ===== src/Consumer/Kept.antt =====
-- src/consumer_agent.c: a request keeps its slot in the dictionary until its loop has given out 4095
-- further ids.
use service_mesh_agent.Base.{
  ℕ, suc, ◌+◌, ◌*◌, ◌%◌, ◌≤◌, ◌<◌, ◌≡◌, ◌≢◌, sym, ap, ◌∙◌, List, [], ◌∷◌, Bytes, done, get_elem?,
  length, some, arith, >>=-eq-done, done_injective, get_elem?-set_ne,
}
use service_mesh_agent.Base.Words.{u64}
use service_mesh_agent.LoadBalancer.{Selected}
use service_mesh_agent.Consumer.State.{HttpReq, TcpServer, hash_slot_num}
use service_mesh_agent.Consumer.Serve.{Parsed}
use service_mesh_agent.Consumer.Sending.{IsForwarded}
use service_mesh_agent.Consumer.Slots.{Effect, keeps, enters, step-Effect}
use service_mesh_agent.Consumer.Events.{Event, step, run}

-- The ids from `id` on that one loop gives out lie in different slots, 4096 of them.
slots_differ : (id k : ℕ) → k < 4095 → u64 (id + 2 * suc k) % hash_slot_num ≢ id % hash_slot_num
slots_differ id k h e = omega (arith, e)

-- `k` ids have been given out since `id`.
abbrev Since : ℕ → ℕ → ℕ → TcpServer → Type 0
Since id p k s =
    (s.req_id ≡ u64 (id + 2 * suc k))
    × (get_elem? s.http_req_dict (id % hash_slot_num) ≡ some (some p))

Effect-Since :
    (id p k : ℕ) (s s' : TcpServer)
    → k < 4095
    → Effect s s'
    → Since id p k s
    → (j : ℕ) × (j ≤ suc k) × Since id p j s'
Effect-Since id p k s s' few (keeps same_dict same_id no_more) (at, entry) =
    (k, omega arith, (same_id ∙ at, ap (λ d. get_elem? d (id % hash_slot_num)) same_dict ∙ entry))
Effect-Since id p k s s' few (enters q dict next no_more) (at, entry) =
    let slot : s.req_id % hash_slot_num ≢ id % hash_slot_num =
      λ e. slots_differ id k few (sym (ap (λ n. n % hash_slot_num) at) ∙ e) in
    (
      suc k,
      omega arith,
      (
        omega (arith, next, at),
        ap (λ d. get_elem? d (id % hash_slot_num)) dict
            ∙ (get_elem?-set_ne s.http_req_dict (s.req_id % hash_slot_num) (id % hash_slot_num)
                  (some q) slot
                ∙ entry),
      ),
    )

run-Since :
    (phr_parse_request : Bytes → Parsed) (es : List Event) (id p k : ℕ) (s s' : TcpServer)
    → k + length es ≤ 4095
    → run phr_parse_request es s ≡ done s'
    → Since id p k s
    → get_elem? s'.http_req_dict (id % hash_slot_num) ≡ some (some p)
unfolding run
run-Since phr_parse_request [] id p k s s' few h (at, entry) =
    ap (λ (t : TcpServer). get_elem? t.http_req_dict (id % hash_slot_num)) (sym (done_injective h))
    ∙ entry
run-Since phr_parse_request (e ∷ es) id p k s s' few h since =
    let (t, et, h₁) = >>=-eq-done (step phr_parse_request e s) _ h in
    let (j, le, since') =
      Effect-Since id p k s t (omega arith) (step-Effect phr_parse_request e s t et) since in
    run-Since phr_parse_request es id p j t s' (omega arith) h₁ since'

-- After a request has been sent, its slot points to it through any 4095 callbacks of its loop, reads
-- from clients and provider agents and closings of clients, if these return, whatever they bring. The
-- request itself may have been freed in that time, or have been sent again under a later id.
pub slot_kept :
    (phr_parse_request : Bytes → Parsed) (s s₁ s₂ : TcpServer) (p : ℕ) (req : HttpReq)
    (sel : Selected) (es : List Event)
    → IsForwarded s p req sel s₁
    → run phr_parse_request es s₁ ≡ done s₂
    → length es ≤ 4095
    → get_elem? s₂.http_req_dict (s.req_id % hash_slot_num) ≡ some (some p)
slot_kept phr_parse_request s s₁ s₂ p req sel es f h few =
    run-Since phr_parse_request es s.req_id p 0 s₁ s₂ (omega arith) h
      (omega (arith, f.next_id), f.entered)
