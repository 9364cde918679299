-- ===== src/Consumer/Listening.antt =====
-- src/consumer_agent.c: when an event loop starts to listen for clients, while its connections to the
-- provider agents are made, are lost and are made again.
use service_mesh_agent.Base.{
  ℕ, zero, suc, ◌+◌, ◌<◌, Bytes, lt→not-leb, ◌==◌, ◌≡◌, refl, ap, ◌∙◌, List, [], ◌∷◌, ◌++◌, Exec,
  done, exit, ◌>>=◌, must, get_elem?, if◌then◌else◌, Bool, true, false, leb, arith, >>=-eq-done,
  subst, done_injective, Bool-cases, inl, inr,
}
use service_mesh_agent.Base.Int.{pos}
use service_mesh_agent.Uv.{
  Request, uv_write, uv_close, uv_tcp_connect, uv_read_start, sleep, uv_listen, eof, Heap, free,
}
use service_mesh_agent.Consumer.State.{TcpServer, init_tcp_server_t}
use service_mesh_agent.LoadBalancer.{LoadBalancer}
use service_mesh_agent.Consumer.Answer.{c_read_from_provide_agents}
use service_mesh_agent.Consumer.Connect.{
  World, make_connection_to_agent, c_after_connect_to_a_agent, reconnection_to_agent,
  connect_to_provider_agent_long_live, start_work_event_loop, start_listen,
}

-- An attempt to connect ends, well or not; the stream from a provider agent ends; its close has been
-- carried out.
pub data LinkEvent : Type 0 where
  attempted : ℕ → Bool → LinkEvent
  ended closed : ℕ → LinkEvent

-- `can_listen` says whether uv_listen returns 0.
unfoldable pub link_step : ℕ → Bool → LinkEvent → Heap → TcpServer → Exec World
link_step n can_listen (attempted which ok) h s =
    c_after_connect_to_a_agent n can_listen which ok h s
link_step n can_listen (ended which) h s = do
  (s, asked) ← c_read_from_provide_agents (λ k. pos 0) s which eof []
  done (h, s, asked)
link_step n can_listen (closed which) h s = reconnection_to_agent which h s

unfoldable pub link_run : ℕ → Bool → List LinkEvent → Heap → TcpServer → Exec World
link_run n can_listen [] h s = done (h, s, [])
link_run n can_listen (e ∷ es) h s = do
  (h, s, asked) ← link_step n can_listen e h s
  (h, s, rest) ← link_run n can_listen es h s
  done (h, s, asked ++ rest)

unfoldable pub success : LinkEvent → ℕ
success (attempted which true) = 1
success (attempted which false) = 0
success (ended which) = 0
success (closed which) = 0

unfoldable pub successes : List LinkEvent → ℕ
unfolding success
successes [] = 0
successes (e ∷ es) = success e + successes es

-- How often uv_listen is asked.
unfoldable pub listens : List Request → ℕ
listens [] = 0
listens (uv_listen ∷ rs) = suc (listens rs)
listens (uv_write handle bytes ∷ rs) = listens rs
listens (uv_tcp_connect connection handle ∷ rs) = listens rs
listens (uv_read_start handle ∷ rs) = listens rs
listens (uv_close handle ∷ rs) = listens rs
listens (sleep seconds ∷ rs) = listens rs

listens-append : (rs qs : List Request) → listens (rs ++ qs) ≡ listens rs + listens qs
unfolding listens
listens-append [] qs = omega arith
listens-append (uv_listen ∷ rs) qs = omega (arith, listens-append rs qs)
listens-append (uv_write handle bytes ∷ rs) qs = listens-append rs qs
listens-append (uv_tcp_connect connection handle ∷ rs) qs = listens-append rs qs
listens-append (uv_read_start handle ∷ rs) qs = listens-append rs qs
listens-append (uv_close handle ∷ rs) qs = listens-append rs qs
listens-append (sleep seconds ∷ rs) qs = listens-append rs qs

unfoldable pub reached : ℕ → ℕ → ℕ
reached n count = if leb n count then 1 else 0

reached-suc : (n c : ℕ) → (if suc c == n then 1 else 0) + reached n c ≡ reached n (suc c)
unfolding reached
reached-suc n c = ground arith

-- What a callback does: it counts `k` connections, and listens when the count reaches `n`.
abbrev Counts : ℕ → ℕ → TcpServer → World → Type 0
Counts n k s r =
    (r.1.endpoint_connection_count ≡ s.endpoint_connection_count + k)
    × (listens r.2 + reached n s.endpoint_connection_count
        ≡ reached n r.1.endpoint_connection_count)

Counts-done :
    (n k : ℕ) (s : TcpServer) {r' r : World} → done r' ≡ done r → Counts n k s r' → Counts n k s r
Counts-done n k s e c = subst (Counts n k s) (done_injective e) c

make_connection_to_agent-Counts :
    (n which : ℕ) (h : Heap) (s : TcpServer) (r : World)
    → make_connection_to_agent which h s ≡ done r
    → Counts n 0 s r
unfolding make_connection_to_agent listens
make_connection_to_agent-Counts n which h s r e =
    let (server, es, e₁) = >>=-eq-done (must (get_elem? s.endpoint_servers which)) _ e in
    elim (Bool-cases server.connected) [
      | inl t ↦ Counts-done n 0 s (rw t at e₁) (omega arith, omega arith)
      | inr f ↦
          let (g, eg, e₂) = >>=-eq-done (free _ server.conn) _ (rw f at e₁) in
          let (i, ei, e₃) = >>=-eq-done (free _ server.tcp_stream) _ e₂ in
          Counts-done n 0 s e₃ (omega arith, omega arith)
    ]

never : {w : World} → exit ≡ done w → ⊥
never e = absurd (cc)

attempt-Counts :
    (n : ℕ) (can_listen : Bool) (which : ℕ) (ok : Bool) (h : Heap) (s : TcpServer) (r : World)
    → c_after_connect_to_a_agent n can_listen which ok h s ≡ done r
    → Counts n (success (attempted which ok)) s r
unfolding c_after_connect_to_a_agent start_listen listens success
attempt-Counts n true which true h s r e =
    let c = s.endpoint_connection_count in
    let (server, es, e₁) = >>=-eq-done (must (get_elem? s.endpoint_servers which)) _ e in
    let (stream, et, e₂) = >>=-eq-done (must server.tcp_stream) _ e₁ in
    elim (Bool-cases (suc c == n)) [
      | inl t ↦ Counts-done n 1 s (rw t at e₂) (omega arith, rw t at (reached-suc n c))
      | inr f ↦ Counts-done n 1 s (rw f at e₂) (omega arith, rw f at (reached-suc n c))
    ]
attempt-Counts n false which true h s r e =
    let c = s.endpoint_connection_count in
    let (server, es, e₁) = >>=-eq-done (must (get_elem? s.endpoint_servers which)) _ e in
    let (stream, et, e₂) = >>=-eq-done (must server.tcp_stream) _ e₁ in
    elim (Bool-cases (suc c == n)) [
      | inl t ↦ absurd (never (rw t at e₂))
      | inr f ↦ Counts-done n 1 s (rw f at e₂) (omega arith, rw f at (reached-suc n c))
    ]
attempt-Counts n can_listen which false h s r e =
    let (w, ew, e₁) = >>=-eq-done (make_connection_to_agent which h s) _ e in
    Counts-done n 0 s e₁ (make_connection_to_agent-Counts n which h s w ew)

link_step-Counts :
    (n : ℕ) (can_listen : Bool) (event : LinkEvent) (h : Heap) (s : TcpServer) (r : World)
    → link_step n can_listen event h s ≡ done r
    → Counts n (success event) s r
unfolding link_step success listens c_read_from_provide_agents reconnection_to_agent
link_step-Counts n can_listen (attempted which ok) h s r e =
    attempt-Counts n can_listen which ok h s r e
link_step-Counts n can_listen (ended which) h s r e =
    let (a, ea, e₁) = >>=-eq-done (c_read_from_provide_agents (λ k. pos 0) s which eof []) _ e in
    let (server, es, e₂) = >>=-eq-done (must (get_elem? s.endpoint_servers which)) _ ea in
    let (stream, et, e₃) = >>=-eq-done (must server.tcp_stream) _ e₂ in
    Counts-done n 0 s (ap (λ x. done (h, x.0, x.1)) (done_injective e₃) ∙ e₁)
      (omega arith, omega arith)
link_step-Counts n can_listen (closed which) h s r e =
    make_connection_to_agent-Counts n which h s r e

link_run-Counts :
    (n : ℕ) (can_listen : Bool) (events : List LinkEvent) (h : Heap) (s : TcpServer) (r : World)
    → link_run n can_listen events h s ≡ done r
    → Counts n (successes events) s r
unfolding link_run successes listens
link_run-Counts n can_listen [] h s r e = Counts-done n 0 s e (omega arith, omega arith)
link_run-Counts n can_listen (event ∷ events) h s r e =
    let (a, ea, e₁) = >>=-eq-done (link_step n can_listen event h s) _ e in
    let (b, eb, e₂) = >>=-eq-done (link_run n can_listen events a.0 a.1) _ e₁ in
    let (count_a, listens_a) = link_step-Counts n can_listen event h s a ea in
    let (count_b, listens_b) = link_run-Counts n can_listen events a.0 a.1 b eb in
    Counts-done n (success event + successes events) s e₂
      (omega arith, omega (arith, listens-append a.2 b.2))

all-Counts :
    (n m i : ℕ) (h : Heap) (s : TcpServer) (r : World)
    → connect_to_provider_agent_long_live m i h s ≡ done r
    → Counts n 0 s r
unfolding connect_to_provider_agent_long_live listens
all-Counts n zero i h s r e = Counts-done n 0 s e (omega arith, omega arith)
all-Counts n (suc m) i h s r e =
    let (a, ea, e₁) = >>=-eq-done (make_connection_to_agent i h s) _ e in
    let (b, eb, e₂) = >>=-eq-done (connect_to_provider_agent_long_live m (suc i) a.0 a.1) _ e₁ in
    let (count_a, listens_a) = make_connection_to_agent-Counts n i h s a ea in
    let (count_b, listens_b) = all-Counts n m (suc i) a.0 a.1 b eb in
    Counts-done n 0 s e₂ (omega arith, omega (arith, listens-append a.2 b.2))

start-Counts :
    (n tid : ℕ) (raw : Bytes) (lb : LoadBalancer) (h : Heap) (r : World)
    → 0 < n
    → start_work_event_loop tid raw n lb h ≡ done r
    → (r.1.endpoint_connection_count ≡ 0) × (listens r.2 ≡ 0)
unfolding start_work_event_loop init_tcp_server_t reached
start-Counts n tid raw lb h r pos_n e =
    let (count, asked) = all-Counts n n 0 h (init_tcp_server_t tid raw n lb) r e in
    let before : reached n 0 ≡ 0 = rw (lt→not-leb n 0 pos_n) refl in
    let after : reached n r.1.endpoint_connection_count ≡ 0 = ap (reached n) count ∙ before in
    (omega arith, omega (arith, after, before))

-- How often the loop listens, if its callbacks return.
pub listens_lem :
    (n : ℕ) (can_listen : Bool) (tid : ℕ) (raw : Bytes) (lb : LoadBalancer) (h : Heap)
    (events : List LinkEvent) (w₀ w₁ : World)
    → 0 < n
    → start_work_event_loop tid raw n lb h ≡ done w₀
    → link_run n can_listen events w₀.0 w₀.1 ≡ done w₁
    → listens (w₀.2 ++ w₁.2) ≡ (if leb n (successes events) then 1 else 0)
unfolding reached
listens_lem n can_listen tid raw lb h events w₀ w₁ pos_n e₀ e₁ =
    let (none_yet, silent) = start-Counts n tid raw lb h w₀ pos_n e₀ in
    let (count, asked) = link_run-Counts n can_listen events w₀.0 w₀.1 w₁ e₁ in
    let before : reached n w₀.1.endpoint_connection_count ≡ 0 =
      ap (reached n) none_yet ∙ rw (lt→not-leb n 0 pos_n) refl in
    let after : reached n w₁.1.endpoint_connection_count ≡ reached n (successes events) =
      ap (reached n) (omega arith) in
    omega (arith, listens-append w₀.2 w₁.2, before, after)
