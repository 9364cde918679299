-- ===== src/Consumer/Clients.antt =====
-- src/consumer_agent.c: how many clients are served at a time.
use service_mesh_agent.Base.{
  ◌≡◌, sym, List, [], ◌∷◌, Bytes, Exec, done, ◌>>=◌, >>=-eq-done, done_injective, subst, Bool, true,
  false, Bool-cases, inl, inr, arith, ◌⊎◌,
}
use service_mesh_agent.Base.Int.{
  ℤ, pos, ◌+ℤ◌, ◌-ℤ◌, ◌≤ℤ◌, ltb_ℤ, ltb_ℤ→lt, le→not-ltb_ℤ, +ℤ_parts, -ℤ_parts,
}
use service_mesh_agent.Uv.{Heap}
use service_mesh_agent.Consumer.State.{TcpServer}
use service_mesh_agent.Consumer.Serve.{Parsed}
use service_mesh_agent.Consumer.Connect.{World, conn_limit, on_new_connection}
use service_mesh_agent.Consumer.Events.{Event, step}
use service_mesh_agent.Consumer.Slots.{NoMore, Effect, keeps, enters, step-Effect}

-- A client has connected, with what on_new_connection is told; another callback of the loop; callbacks
-- of the other loop, which has the same count and leaves it at this value.
pub data Arrival : Type 0 where
  arrives : Bytes → Bytes → ℤ → ℤ → Heap → Bool → Bool → Arrival
  callback : Event → Arrival
  other_loop : ℤ → Arrival

unfoldable pub arrival_step : (Bytes → Parsed) → Arrival → TcpServer → Exec TcpServer
arrival_step phr_parse_request (arrives raw response cur_time start_time h ok accepted) s =
    on_new_connection raw response cur_time start_time h s ok accepted >>= λ w. done w.1
arrival_step phr_parse_request (callback e) s = step phr_parse_request e s
arrival_step phr_parse_request (other_loop count) s =
    done (record s { global_conn_remain_count = count })

unfoldable pub arrival_run : (Bytes → Parsed) → List Arrival → TcpServer → Exec TcpServer
arrival_run phr_parse_request [] s = done s
arrival_run phr_parse_request (a ∷ later) s =
    arrival_step phr_parse_request a s >>= arrival_run phr_parse_request later

-- No client that arrives meets a limit above `m`, and the other loop keeps to `m` too.
unfoldable pub Within : ℤ → List Arrival → Type 0
Within m [] = Unit
Within m (arrives raw response cur_time start_time h ok accepted ∷ later) =
    (conn_limit cur_time start_time ≤ℤ m) × Within m later
Within m (callback e ∷ later) = Within m later
Within m (other_loop count ∷ later) = (count ≤ℤ m) × Within m later

limit-stays : (x y m : ℤ) → (y ≡ x) ⊎ (y ≡ x -ℤ pos 1) → x ≤ℤ m → y ≤ℤ m
limit-stays x y m (inl e) h = subst (λ z. z ≤ℤ m) (sym e) h
limit-stays x y m (inr e) h = subst (λ z. z ≤ℤ m) (sym e) (omega (arith, -ℤ_parts x (pos 1), h))

below-stays : (x l m : ℤ) → ltb_ℤ x l ≡ true → l ≤ℤ m → x +ℤ pos 1 ≤ℤ m
below-stays x l m h k = omega (arith, +ℤ_parts x (pos 1), ltb_ℤ→lt x l h, k)

Effect-NoMore : (s s' : TcpServer) → Effect s s' → NoMore s s'
Effect-NoMore s s' (keeps dict id no_more) = no_more
Effect-NoMore s s' (enters p dict id no_more) = no_more

limit-within : (cur_time start_time : ℤ) → conn_limit cur_time start_time ≤ℤ pos 1024
unfolding conn_limit
limit-within cur_time start_time =
    elim (Bool-cases (ltb_ℤ (pos 30000000) (cur_time -ℤ start_time))) [
      | inl t ↦ rw t (omega arith)
      | inr f ↦ rw f (omega arith)
    ]

early-limit :
    (cur_time start_time : ℤ)
    → cur_time -ℤ start_time ≤ℤ pos 30000000
    → conn_limit cur_time start_time ≤ℤ pos 256
unfolding conn_limit
early-limit cur_time start_time h =
    rw (le→not-ltb_ℤ (pos 30000000) (cur_time -ℤ start_time) h) (omega arith)

-- The count of the state that a call returns.
count_of :
    (m : ℤ) {w' w : World}
    → done w' ≡ done w
    → w'.1.global_conn_remain_count ≤ℤ m
    → w.1.global_conn_remain_count ≤ℤ m
count_of m e c = subst (λ (x : World). x.1.global_conn_remain_count ≤ℤ m) (done_injective e) c

arrives-stays :
    (m : ℤ) (raw response : Bytes) (cur_time start_time : ℤ) (h : Heap) (ok accepted : Bool)
    (s : TcpServer) (w : World)
    → on_new_connection raw response cur_time start_time h s ok accepted ≡ done w
    → conn_limit cur_time start_time ≤ℤ m
    → s.global_conn_remain_count ≤ℤ m
    → w.1.global_conn_remain_count ≤ℤ m
unfolding on_new_connection
arrives-stays m raw response cur_time start_time h false accepted s w e l c = count_of m e c
arrives-stays m raw response cur_time start_time h true false s w e l c = count_of m e c
arrives-stays m raw response cur_time start_time h true true s w e l c =
    elim (Bool-cases (ltb_ℤ s.global_conn_remain_count (conn_limit cur_time start_time))) [
      | inl t ↦
          count_of m (rw t at e)
            (below-stays s.global_conn_remain_count (conn_limit cur_time start_time) m t l)
      | inr f ↦ count_of m (rw f at e) c
    ]

arrival_step-stays :
    (phr_parse_request : Bytes → Parsed) (m : ℤ) (a : Arrival) (later : List Arrival)
    (s s' : TcpServer)
    → arrival_step phr_parse_request a s ≡ done s'
    → Within m (a ∷ later)
    → s.global_conn_remain_count ≤ℤ m
    → (s'.global_conn_remain_count ≤ℤ m) × Within m later
unfolding arrival_step Within
arrival_step-stays parse m (arrives raw response cur_time start_time h ok accepted) later s s' e
      (limit, within) c =
    let (w, ew, e₁) =
      >>=-eq-done (on_new_connection raw response cur_time start_time h s ok accepted) _ e in
    (
      subst (λ (t : TcpServer). t.global_conn_remain_count ≤ℤ m) (done_injective e₁)
          (arrives-stays m raw response cur_time start_time h ok accepted s w ew limit c),
      within,
    )
arrival_step-stays parse m (callback event) later s s' e within c = (
  limit-stays s.global_conn_remain_count s'.global_conn_remain_count m
      (Effect-NoMore s s' (step-Effect parse event s s' e)) c,
  within,
)
arrival_step-stays parse m (other_loop count) later s s' e (kept, within) c =
    (subst (λ (t : TcpServer). t.global_conn_remain_count ≤ℤ m) (done_injective e) kept, within)

run-stays :
    (phr_parse_request : Bytes → Parsed) (m : ℤ) (arrivals : List Arrival) (s s' : TcpServer)
    → arrival_run phr_parse_request arrivals s ≡ done s'
    → Within m arrivals
    → s.global_conn_remain_count ≤ℤ m
    → s'.global_conn_remain_count ≤ℤ m
unfolding arrival_run
run-stays parse m [] s s' e within c =
    subst (λ (t : TcpServer). t.global_conn_remain_count ≤ℤ m) (done_injective e) c
run-stays parse m (a ∷ later) s s' e within c =
    let (t, et, e₁) = >>=-eq-done (arrival_step parse a s) _ e in
    let (c₁, within₁) = arrival_step-stays parse m a later s t et within c in
    run-stays parse m later t s' e₁ within₁ c₁

-- The most clients: 256 in the first thirty seconds, then 1024.
unfoldable pub most_clients : Bool → ℤ
most_clients true = pos 256
most_clients false = pos 1024

-- When `early`, every client arrives in the first thirty seconds. The other loop keeps to the most
-- clients.
unfoldable pub IsTimely : Bool → List Arrival → Type 0
IsTimely early [] = Unit
IsTimely true (arrives raw response cur_time start_time h ok accepted ∷ later) =
    (cur_time -ℤ start_time ≤ℤ pos 30000000) × IsTimely true later
IsTimely false (arrives raw response cur_time start_time h ok accepted ∷ later) =
    IsTimely false later
IsTimely early (callback e ∷ later) = IsTimely early later
IsTimely early (other_loop count ∷ later) = (count ≤ℤ most_clients early) × IsTimely early later

IsTimely-Within :
    (early : Bool) (arrivals : List Arrival)
    → IsTimely early arrivals
    → Within (most_clients early) arrivals
unfolding IsTimely Within most_clients
IsTimely-Within early [] h = h
IsTimely-Within true (arrives raw response cur_time start_time heap ok accepted ∷ later) (t, h) =
    (early-limit cur_time start_time t, IsTimely-Within true later h)
IsTimely-Within false (arrives raw response cur_time start_time heap ok accepted ∷ later) h =
    (limit-within cur_time start_time, IsTimely-Within false later h)
IsTimely-Within true (callback e ∷ later) h = IsTimely-Within true later h
IsTimely-Within false (callback e ∷ later) h = IsTimely-Within false later h
IsTimely-Within true (other_loop count ∷ later) (c, h) = (c, IsTimely-Within true later h)
IsTimely-Within false (other_loop count ∷ later) (c, h) = (c, IsTimely-Within false later h)

-- In any run of the callbacks of a loop, the clients that are counted stay within 1024, and within 256
-- while all of them arrive in the first thirty seconds, if they were when the run began and the other
-- loop keeps to the same number.
pub clients_bounded :
    (phr_parse_request : Bytes → Parsed) (early : Bool) (arrivals : List Arrival) (s s' : TcpServer)
    → arrival_run phr_parse_request arrivals s ≡ done s'
    → IsTimely early arrivals
    → s.global_conn_remain_count ≤ℤ most_clients early
    → s'.global_conn_remain_count ≤ℤ most_clients early
clients_bounded parse early arrivals s s' e timely c =
    run-stays parse (most_clients early) arrivals s s' e (IsTimely-Within early arrivals timely) c
