-- ===== src/Consumer/Links.antt =====
-- src/consumer_agent.c: the connections to the provider agents never use a block that is not there.
use service_mesh_agent.Base.{
  ℕ, ◌+◌, ◌≤◌, ◌<◌, ◌≡◌, ◌≢◌, refl, sym, ap, ◌∙◌, [], ◌∷◌, ◌==◌, Exec, done, ◌>>=◌, must, some,
  true, Bool-cases, inl, inr, arith, get_elem?, set, length, length-set, get_elem?_in,
  lt_of_get_elem?, get_elem?-set_self, get_elem?-set_ne, eq→==,
}
use service_mesh_agent.Uv.{Heap, uv_tcp_connect, malloc}
use service_mesh_agent.Consumer.State.{EndpointServer, TcpServer}
use service_mesh_agent.Consumer.Connect.{World, make_connection_to_agent}
use service_mesh_agent.Consumer.Blocks.{
  copies-malloc, copies, held, holds, free_lem, holds-set, holds-get_elem?,
}

-- `n` endpoints, whose blocks the heap holds, and of which the first `k` have a stream.
pub record IsLinked (n k : ℕ) (h : Heap) (s : TcpServer) : Type 0 where
  pub size : length s.endpoint_servers ≡ n
  pub owned : (q : ℕ) → holds q s.endpoint_servers ≤ copies q h.live
  pub linked :
      (i : ℕ)
      → i < k
      → (server : EndpointServer) × (stream : ℕ) × (get_elem? s.endpoint_servers i ≡ some server)
        × (server.tcp_stream ≡ some stream)
  pub known :
      (i : ℕ) (server : EndpointServer)
      → get_elem? s.endpoint_servers i ≡ some server
      → server.connected ≡ true
      → i < k

-- What a call leaves behind: it returns, and what it returns is as said.
abbrev pub Returns : ℕ → ℕ → Exec World → Type 0
Returns n k m = (w : World) × (m ≡ done w) × IsLinked n k w.0 w.1

-- An endpoint is replaced by one that has a stream; it is the only one that is new among the first
-- `k'`.
pub replaced :
    (n k k' i : ℕ) (h h' : Heap) (s s' : TcpServer) (e e' : EndpointServer) (stream : ℕ)
    → IsLinked n k h s
    → get_elem? s.endpoint_servers i ≡ some e
    → s'.endpoint_servers ≡ set s.endpoint_servers i e'
    → e'.tcp_stream ≡ some stream
    → i < k'
    → k ≤ k'
    → ((j : ℕ) → j < k' → i ≢ j → j < k)
    → ((q : ℕ) → holds q (set s.endpoint_servers i e') ≤ copies q h'.live)
    → IsLinked n k' h' s'
replaced n k k' i h h' s s' e e' stream l at is_set has new grows old owned =
    let es = s.endpoint_servers in
    record {
      size = ap length is_set ∙ (length-set es i e' ∙ l.size);
      owned = λ q. omega (arith, owned q, ap (holds q) is_set);
      linked = λ j lt. elim (Bool-cases (i == j)) [
        | inl same ↦
            let self : i ≡ j = ground arith in
            (
              e',
              stream,
              ap (λ xs. get_elem? xs j) is_set
                  ∙ (ap (get_elem? (set es i e')) (sym self)
                      ∙ get_elem?-set_self es i e' (lt_of_get_elem? es i at)),
              has,
            )
        | inr other ↦
            let differs : i ≢ j = λ e. cc (eq→== i j e) in
            let (server, stream', at', has') = l.linked j (old j lt differs) in
            (
              server,
              stream',
              ap (λ xs. get_elem? xs j) is_set ∙ (get_elem?-set_ne es i j e' differs ∙ at'),
              has',
            )
      ];
      known = λ j server at' on. elim (Bool-cases (i == j)) [
        | inl same ↦ let self : i ≡ j = ground arith in omega (arith, self, new)
        | inr other ↦
            let differs : i ≢ j = λ e. cc (eq→== i j e) in
            let before : get_elem? es j ≡ some server =
              sym (get_elem?-set_ne es i j e' differs)
              ∙ (ap (λ xs. get_elem? xs j) (sym is_set) ∙ at') in
            omega (arith, l.known j server before on, grows)
      ];
    }

-- The first `k'` are linked as soon as endpoint `i` is.
widened :
    (n k k' i : ℕ) (h : Heap) (s : TcpServer)
    → IsLinked n k h s
    → i < k
    → k ≤ k'
    → ((j : ℕ) → j < k' → i ≢ j → j < k)
    → IsLinked n k' h s
widened n k k' i h s l lt grows old = record {
  size = l.size;
  owned = l.owned;
  linked = λ j lt'. elim (Bool-cases (i == j)) [
    | inl same ↦ let self : i ≡ j = ground arith in l.linked j (omega (arith, self, lt))
    | inr other ↦ l.linked j (old j lt' (λ e. cc (eq→== i j e)))
  ];
  known = λ j server at on. omega (arith, l.known j server at on, grows);
}

-- The heap holds the blocks of the endpoints after one has got two new ones.
still_owned :
    (n k i : ℕ) (h h₂ h₄ : Heap) (s : TcpServer) (e e' : EndpointServer)
    → IsLinked n k h s
    → get_elem? s.endpoint_servers i ≡ some e
    → e'.conn ≡ some h.next
    → e'.tcp_stream ≡ some h₂.next
    → ((q : ℕ) → copies q h₂.live + held q e.conn ≡ copies q (malloc h).1.live)
    → ((q : ℕ) → copies q h₄.live + held q e.tcp_stream ≡ copies q (malloc h₂).1.live)
    → (q : ℕ) → holds q (set s.endpoint_servers i e') ≤ copies q h₄.live
unfolding held
still_owned n k i h h₂ h₄ s e e' l at conn stream left₂ left₄ q = omega (
  arith,
  l.owned q,
  left₂ q,
  left₄ q,
  copies-malloc q h,
  copies-malloc q h₂,
  holds-set q s.endpoint_servers i e e' at,
  ap (held q) conn,
  ap (held q) stream,
)

pub make_connection-Returns :
    (n k k' i : ℕ) (h : Heap) (s : TcpServer)
    → i < n
    → IsLinked n k h s
    → i < k'
    → k ≤ k'
    → ((j : ℕ) → j < k' → i ≢ j → j < k)
    → Returns n k' (make_connection_to_agent i h s)
unfolding make_connection_to_agent
make_connection-Returns n k k' i h s lt l new grows old =
    let es = s.endpoint_servers in
    let (e, at) = get_elem?_in es i (omega (arith, l.size)) in
    elim (Bool-cases e.connected) [
      | inl t ↦ (
        (h, s, []),
        rw (at, must, ◌>>=◌, t) refl,
        widened n k k' i h s l (l.known i e at t) grows old,
      )
      | inr f ↦
          let (h₂, e₂, left₂) =
            free_lem (malloc h).1 e.conn
              (λ q. omega (arith, copies-malloc q h, l.owned q, holds-get_elem? q es i e at)) in
          let (h₄, e₄, left₄) = free_lem (malloc h₂).1 e.tcp_stream (λ q. omega (
            arith,
            copies-malloc q h,
            copies-malloc q h₂,
            left₂ q,
            l.owned q,
            holds-get_elem? q es i e at,
          )) in
          let e' : EndpointServer = record e { conn = some h.next; tcp_stream = some h₂.next } in
          let s' : TcpServer = record s { endpoint_servers = set es i e' } in
          (
            (h₄, s', uv_tcp_connect h.next h₂.next ∷ []),
            rw (at, must, ◌>>=◌, f, e₂, e₄) refl,
            replaced n k k' i h h₄ s s' e e' h₂.next l at refl refl new grows old
                (still_owned n k i h h₂ h₄ s e e' l at refl refl left₂ left₄),
          )
    ]
