-- ===== src/Provider/Probe.antt =====
-- src/provider_agent.c, test_dubbo_connection and its callback.
use service_mesh_agent.Base.{
  ℕ, zero, suc, ◌+◌, ◌*◌, ◌≡◌, ◌≢◌, ◌<◌, refl, ap, ◌∙◌, List, [], ◌∷◌, ◌++◌, Exec, done, ◌>>=◌,
  Option, none, some, true, false, arith,
}
use service_mesh_agent.Uv.{Request, closes, sleep, uv_tcp_connect, uv_close, Heap}
use service_mesh_agent.Provider.Life.{Probe, test_dubbo_connection, p_on_duboo_connect_test_cb}
use service_mesh_agent.Provider.Ownership.{free_first, free_third}

-- The callbacks of the attempts: `n` fail, the next one succeeds.
unfoldable pub probes : Heap → Probe → ℕ → Exec (Heap × Option Probe × List Request)
probes h probe zero = p_on_duboo_connect_test_cb h probe true
probes h probe (suc n) = do
  (h, next, asked) ← p_on_duboo_connect_test_cb h probe false
  elim next [
    | none ↦ done (h, none, asked)
    | some next ↦ probes h next n >>= λ r. done (r.0, r.1, asked ++ r.2)
  ]

-- What those callbacks ask for, if block `p` is the first uv_connect_t and the block behind it its
-- handle: after each failure the agent sleeps three seconds and connects two new blocks, and it closes
-- the handle that is connected at last.
unfoldable pub probe_requests : ℕ → ℕ → List Request
probe_requests p zero = uv_close (suc p) ∷ []
probe_requests p (suc n) =
    sleep 3 ∷ uv_tcp_connect (suc (suc p)) (suc (suc (suc p))) ∷ probe_requests (suc (suc p)) n

unfoldable probe_at : ℕ → Probe
probe_at p = record { connection = p; handle = suc p }

abbrev heap_at : ℕ → List ℕ → Heap
heap_at p ps = record { next = suc (suc p); live = suc p ∷ p ∷ ps }

succeeds :
    (p : ℕ) (ps : List ℕ)
    → p_on_duboo_connect_test_cb (heap_at p ps) (probe_at p) true
      ≡ done (record { next = suc (suc p); live = ps }, none, uv_close (suc p) ∷ [])
unfolding p_on_duboo_connect_test_cb probe_at
succeeds p ps =
    rw (free_first (suc (suc p)) (suc p) (p ∷ ps), ◌>>=◌, free_first (suc (suc p)) p ps) refl

fails :
    (p : ℕ) (ps : List ℕ)
    → p_on_duboo_connect_test_cb (heap_at p ps) (probe_at p) false
      ≡ done (
        heap_at (suc (suc p)) ps,
        some (probe_at (suc (suc p))),
        sleep 3 ∷ uv_tcp_connect (suc (suc p)) (suc (suc (suc p))) ∷ [],
      )
unfolding p_on_duboo_connect_test_cb test_dubbo_connection probe_at
fails p ps =
    let h : (a b : ℕ) → a < b → a ≢ b = λ a b le e. omega (arith, e) in
    rw
      (
        free_third (suc (suc (suc (suc p)))) (suc p) (suc (suc p)) (suc (suc (suc p))) (p ∷ ps)
            (h (suc p) (suc (suc p)) (omega arith)) (h (suc p) (suc (suc (suc p))) (omega arith)),
        ◌>>=◌,
        free_third (suc (suc (suc (suc p)))) p (suc (suc p)) (suc (suc (suc p))) ps
            (h p (suc (suc p)) (omega arith)) (h p (suc (suc (suc p))) (omega arith)),
      )
      refl

probes_lem :
    (n p : ℕ) (ps : List ℕ)
    → (h' : Heap) × (probes (heap_at p ps) (probe_at p) n ≡ done (h', none, probe_requests p n))
      × (h'.live ≡ ps)
unfolding probes probe_requests
probes_lem zero p ps = (record { next = suc (suc p); live = ps }, succeeds p ps, refl)
probes_lem (suc n) p ps =
    let (h', e, l) = probes_lem n (suc (suc p)) ps in (h', rw (fails p ps, ◌>>=◌, e) refl, l)

closes-probe_requests : (n p : ℕ) → closes (probe_requests p n) ≡ suc (p + 2 * n) ∷ []
unfolding closes probe_requests
closes-probe_requests zero p = ap (λ m. suc m ∷ []) (omega arith)
closes-probe_requests (suc n) p =
    closes-probe_requests n (suc (suc p)) ∙ ap (λ m. suc m ∷ []) (omega arith)

-- The attempts ask for exactly this.
pub probes_ask :
    (h : Heap) (n : ℕ)
    → let (probe, h₁, asked) = test_dubbo_connection h in
      (h' : Heap) × (probes h₁ probe n ≡ done (h', none, probe_requests h.next n))
      × (h'.live ≡ h.live)
unfolding test_dubbo_connection probe_at
probes_ask h n = probes_lem n h.next h.live

-- However often the dubbo server refuses, the probe ends with the first success, and every block that
-- it has allocated is freed once. Of its sockets only the last is asked to be closed, in the callback
-- that frees it.
pub probes_free_their_handles :
    (h : Heap) (n : ℕ)
    → let (probe, h₁, asked) = test_dubbo_connection h in
      (h' : Heap) × (again : List Request) × (probes h₁ probe n ≡ done (h', none, again))
      × (h'.live ≡ h.live)
      × (closes again ≡ suc (h.next + 2 * n) ∷ [])
probes_free_their_handles h n =
    let (h', e, l) = probes_ask h n in
    (h', probe_requests h.next n, e, l, closes-probe_requests n h.next)
