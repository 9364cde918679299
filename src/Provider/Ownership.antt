-- ===== src/Provider/Ownership.antt =====
-- src/provider_agent.c: the blocks of a relay, from its accept to its end.
use service_mesh_agent.Base.{
  ℕ, zero, suc, ◌<◌, ◌≡◌, ◌≢◌, refl, ap₂, ◌∙◌, List, [], ◌∷◌, ◌++◌, Bytes, Exec, done, ◌>>=◌, must,
  some, true, false, arith, eq→==, ne→not-==,
}
use service_mesh_agent.Uv.{
  Request, sleep, uv_tcp_connect, closes, closes-append, Heap, free, remove,
}
use service_mesh_agent.Provider.Relay.{TcpRelay, init_tcp_relay_t, package_size}
use service_mesh_agent.Provider.Life.{
  World, connect_to_dubbo_long_live, p_on_duboo_connect, free_tcp_relay_t,
  p_close_tcp_relay_connection2, p_on_new_connection,
}

pub free_first :
    (next p : ℕ) (ps : List ℕ)
    → free (record { next = next; live = p ∷ ps }) (some p)
      ≡ done (record { next = next; live = ps })
unfolding free remove
free_first next p ps = rw (eq→== p p refl, must, ◌>>=◌) refl

pub free_second :
    (next p q : ℕ) (ps : List ℕ)
    → p ≢ q
    → free (record { next = next; live = q ∷ p ∷ ps }) (some p)
      ≡ done (record { next = next; live = q ∷ ps })
unfolding free remove
free_second next p q ps h = rw (ne→not-== p q h, eq→== p p refl, must, ◌>>=◌) refl

pub free_third :
    (next p q r : ℕ) (ps : List ℕ)
    → p ≢ q
    → p ≢ r
    → free (record { next = next; live = r ∷ q ∷ p ∷ ps }) (some p)
      ≡ done (record { next = next; live = r ∷ q ∷ ps })
unfolding free remove
free_third next p q r ps h k =
    rw (ne→not-== p r k, ne→not-== p q h, eq→== p p refl, must, ◌>>=◌) refl

remove_first : (p : ℕ) (ps : List ℕ) → remove p (p ∷ ps) ≡ some ps
unfolding remove
remove_first p ps = rw (eq→== p p refl) refl

remove_behind :
    (p q : ℕ) (ps qs : List ℕ) → p ≢ q → remove p ps ≡ some qs → remove p (q ∷ ps) ≡ some (q ∷ qs)
unfolding remove
remove_behind p q ps qs h e = rw (ne→not-== p q h, e) refl

-- The relay owns its block, its two buffers and its three handles, which are different blocks; the
-- others of the heap are `ps`.
pub record Owns (ps : List ℕ) (h : Heap) (relay : TcpRelay) : Type 0 where
  pub client : ℕ
  pub socket : ℕ
  pub connection : ℕ
  pub is_client : relay.tcp_conn_1 ≡ some client
  pub is_socket : relay.tcp_conn_2 ≡ some socket
  pub is_connection : relay.dubbo_connection ≡ some connection
  pub live :
      h.live ≡ connection ∷ socket ∷ relay.raw_buf2 ∷ relay.raw_buf1 ∷ relay.address ∷ client ∷ ps
  pub order :
      (client < relay.address)
      × (relay.address < relay.raw_buf1)
      × (relay.raw_buf1 < relay.raw_buf2)
      × (relay.raw_buf2 < socket)
      × (socket < connection)
      × (connection < h.next)

-- An attempt to connect that fails is made again, `n` times.
unfoldable pub retries : ℕ → Heap → TcpRelay → Exec World
retries zero h relay = done (h, relay, [])
retries (suc n) h relay = do
  (h, relay, asked) ← p_on_duboo_connect h relay false
  (h, relay, rest) ← retries n h relay
  done (h, relay, asked ++ rest)

retry-Owns :
    (ps : List ℕ) (h : Heap) (relay : TcpRelay)
    → Owns ps h relay
    → (h' : Heap) × (relay' : TcpRelay) × (asked : List Request) × (p_on_duboo_connect h relay false
        ≡ done (h', relay', asked))
      × (closes asked ≡ [])
      × Owns ps h' relay'
unfolding closes p_on_duboo_connect connect_to_dubbo_long_live
retry-Owns ps h relay o =
    let s = h.next in
    let d = suc h.next in
    let (a, b, c, k, l, m) = o.order in
    let others = relay.raw_buf2 ∷ relay.raw_buf1 ∷ relay.address ∷ o.client ∷ ps in
    (
      record { next = suc d; live = d ∷ s ∷ others },
      record relay { tcp_conn_2 = some s; dubbo_connection = some d },
      sleep 3 ∷ uv_tcp_connect d s ∷ [],
      rw
          (
            o.is_socket,
            o.is_connection,
            o.live,
            free_third d o.socket o.connection s others (λ e. omega (arith, e, l))
                (λ e. omega (arith, e, l, m)),
            ◌>>=◌,
            free_third (suc d) o.connection s d others (λ e. omega (arith, e, m))
                (λ e. omega (arith, e, m)),
          )
          refl,
      refl,
      record {
        client = o.client;
        socket = s;
        connection = d;
        is_client = o.is_client;
        is_socket = refl;
        is_connection = refl;
        live = refl;
        order = (a, b, c, omega (arith, k, l, m), omega arith, omega arith);
      },
    )

retries-Owns :
    (ps : List ℕ) (n : ℕ) (h : Heap) (relay : TcpRelay)
    → Owns ps h relay
    → (h' : Heap) × (relay' : TcpRelay) × (asked : List Request) × (retries n h relay
        ≡ done (h', relay', asked))
      × (closes asked ≡ [])
      × Owns ps h' relay'
unfolding retries closes
retries-Owns ps zero h relay o = (h, relay, [], refl, refl, o)
retries-Owns ps (suc n) h relay o =
    let (h₁, relay₁, asked₁, e₁, c₁, o₁) = retry-Owns ps h relay o in
    let (h₂, relay₂, asked₂, e₂, c₂, o₂) = retries-Owns ps n h₁ relay₁ o₁ in
    (
      h₂,
      relay₂,
      asked₁ ++ asked₂,
      rw (e₁, ◌>>=◌, e₂) refl,
      closes-append asked₁ asked₂ ∙ ap₂ (λ a b. a ++ b) c₁ c₂,
      o₂,
    )

new-Owns :
    (buf₁ buf₂ : Bytes) (h : Heap)
    → (h' : Heap) × (relay : TcpRelay) × (asked : List Request) × (p_on_new_connection buf₁ buf₂ h
          true true
        ≡ done (h', some relay, asked))
      × Owns h.live h' relay
unfolding p_on_new_connection connect_to_dubbo_long_live init_tcp_relay_t free
new-Owns buf₁ buf₂ h =
    let c = h.next in
    let r = suc c in
    let s = suc (suc (suc r)) in
    let h₀ : Heap = record { next = r; live = c ∷ h.live } in
    let (relay, h₁) = init_tcp_relay_t buf₁ buf₂ package_size h₀ in
    (
      record { next = suc (suc s); live = suc s ∷ s ∷ h₁.live },
      record relay { tcp_conn_1 = some c; tcp_conn_2 = some s; dubbo_connection = some (suc s) },
      uv_tcp_connect (suc s) s ∷ [],
      refl,
      record {
        client = c;
        socket = s;
        connection = suc s;
        is_client = refl;
        is_socket = refl;
        is_connection = refl;
        live = refl;
        order = (omega arith, omega arith, omega arith, omega arith, omega arith, omega arith);
      },
    )

-- The block of the connection to the consumer agent lies behind the five others of the relay.
free_client :
    (ps : List ℕ) (h : Heap) (relay : TcpRelay) (o : Owns ps h relay)
    → free h (some o.client)
      ≡ done (record {
        next = h.next;
        live = o.connection ∷ o.socket ∷ relay.raw_buf2 ∷ relay.raw_buf1 ∷ relay.address ∷ ps;
      })
unfolding free
free_client ps h relay o =
    let p = o.client in
    let (a, b, c, k, l, m) = o.order in
    let l₁ = relay.address ∷ ps in
    let l₂ = relay.raw_buf1 ∷ l₁ in
    let l₃ = relay.raw_buf2 ∷ l₂ in
    let l₄ = o.socket ∷ l₃ in
    let r₁ =
      remove_behind p relay.address (p ∷ ps) ps (λ e. omega (arith, e, a)) (remove_first p ps) in
    let r₂ =
      remove_behind p relay.raw_buf1 (relay.address ∷ p ∷ ps) l₁ (λ e. omega (arith, e, a, b)) r₁ in
    let r₃ =
      remove_behind p relay.raw_buf2 (relay.raw_buf1 ∷ relay.address ∷ p ∷ ps) l₂
        (λ e. omega (arith, e, a, b, c)) r₂ in
    let r₄ =
      remove_behind p o.socket (relay.raw_buf2 ∷ relay.raw_buf1 ∷ relay.address ∷ p ∷ ps) l₃
        (λ e. omega (arith, e, a, b, c, k)) r₃ in
    let r₅ =
      remove_behind p o.connection
        (o.socket ∷ relay.raw_buf2 ∷ relay.raw_buf1 ∷ relay.address ∷ p ∷ ps) l₄
        (λ e. omega (arith, e, a, b, c, k, l)) r₄ in
    rw (o.live, r₅, must, ◌>>=◌) refl

close-Owns :
    (ps : List ℕ) (h : Heap) (relay : TcpRelay)
    → Owns ps h relay
    → (h' : Heap) × (p_close_tcp_relay_connection2 h relay ≡ done h')
      × (h'.live ≡ relay.raw_buf2 ∷ relay.raw_buf1 ∷ ps)
unfolding p_close_tcp_relay_connection2 free_tcp_relay_t
close-Owns ps h relay o =
    let (a, b, c, k, l, m) = o.order in
    let buffers = relay.raw_buf2 ∷ relay.raw_buf1 ∷ relay.address ∷ ps in
    (
      record { next = h.next; live = relay.raw_buf2 ∷ relay.raw_buf1 ∷ ps },
      rw
          (
            o.is_client,
            o.is_socket,
            o.is_connection,
            free_client ps h relay o,
            ◌>>=◌,
            free_second h.next o.socket o.connection buffers (λ e. omega (arith, e, l)),
            free_first h.next o.connection buffers,
            free_third h.next relay.address relay.raw_buf1 relay.raw_buf2 ps
                (λ e. omega (arith, e, b)) (λ e. omega (arith, e, b, c)),
          )
          refl,
      refl,
    )

-- However often the connection to the dubbo server fails before it is made, the end of a relay frees
-- its block and its three handles, each once: the heap then holds what it held before and the two
-- buffers of the relay, which are never freed. The sockets of the attempts that failed are freed
-- though the agent asks for the close of none.
pub relay_frees_its_handles :
    (buf₁ buf₂ : Bytes) (h : Heap) (n : ℕ)
    → (h₁ : Heap) × (relay : TcpRelay) × (asked : List Request) × (h₂ : Heap) × (relay' : TcpRelay)
      × (again : List Request) × (h₃ : Heap) × (p_on_new_connection buf₁ buf₂ h true true
          ≡ done (h₁, some relay, asked))
      × (retries n h₁ relay ≡ done (h₂, relay', again))
      × (closes again ≡ [])
      × (p_close_tcp_relay_connection2 h₂ relay' ≡ done h₃)
      × (h₃.live ≡ relay'.raw_buf2 ∷ relay'.raw_buf1 ∷ h.live)
relay_frees_its_handles buf₁ buf₂ h n =
    let (h₁, relay, asked, e₁, o₁) = new-Owns buf₁ buf₂ h in
    let (h₂, relay', again, e₂, c₂, o₂) = retries-Owns h.live n h₁ relay o₁ in
    let (h₃, e₃, l₃) = close-Owns h.live h₂ relay' o₂ in
    (h₁, relay, asked, h₂, relay', again, h₃, e₁, e₂, c₂, e₃, l₃)
