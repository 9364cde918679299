-- ===== src/Consumer/Replies.antt =====
-- src/consumer_agent.c: a whole connection from a provider agent, which carries answers under request
-- ids, is passed to the clients.
use service_mesh_agent.Base.{
  ℕ, suc, ◌+◌, ◌≤◌, ◌≡◌, refl, sym, ap, ◌∙◌, List, [], ◌∷◌, ◌++◌, Bytes, Exec, done, ◌>>=◌, must,
  get_elem?, set, some, none, Option, length, take, drop, min, arith, concat_map, >>=-assoc,
  >>=_congr, set-get_elem?, set-set, lt_of_get_elem?, get_elem?-set_self,
}
use service_mesh_agent.Base.Int.{ℤ}
use service_mesh_agent.Codec.{long_to_8bytes, le_bytes}
use service_mesh_agent.Codec.FourBytes.{read_int-int_to_four_char}
use service_mesh_agent.Framing.Stream.{Handles, IsAll}
use service_mesh_agent.Framing.{Inbox, receive, drain}
use service_mesh_agent.Framing.Commute.{drain_commutes}
use service_mesh_agent.Framing.Pump.{pump, read_size, pump_serves_all}
use service_mesh_agent.Uv.{Request, arrived}
use service_mesh_agent.Consumer.State.{
  EndpointServer, TcpServer, deref, alloc_buffer_to_agent, default_response_size,
}
use service_mesh_agent.Consumer.Answer.{respond, answer_slot, answer, c_read_from_provide_agents}
use service_mesh_agent.Consumer.Deliver.{Reply, reply_bytes, IsReply, deliver, answer-deliver}
use service_mesh_agent.Consumer.Delivered.{IsReady, writes, delivers_all}

-- The endpoints of a server are not what an answer looks at.
abbrev pub with_ends : List EndpointServer → TcpServer → TcpServer
with_ends es s = record s { endpoint_servers = es }

respond-with_ends :
    (es : List EndpointServer) (which : ℕ) (now : ℤ) (raw : Bytes) (n : ℕ) (s : TcpServer) (p : ℕ)
    → respond which now raw n (with_ends es s) p
      ≡ (respond which now raw n s p >>= λ r. done (with_ends es r.0, r.1))
unfolding respond deref
respond-with_ends es which now raw n s p = simp (>>=-assoc)

module _ (es : List EndpointServer) (which : ℕ) (clock : ℕ → ℤ) (raw : Bytes) (n : ℕ) where
  slot-with_ends :
      (s : TcpServer) (sent : List Request) (slot : Option ℕ)
      → answer_slot which (clock (length sent)) raw n (with_ends es s) sent slot ≡ (
          answer_slot which (clock (length sent)) raw n s sent slot >>= λ r.
          done (with_ends es r.0, r.1))
  unfolding answer_slot
  slot-with_ends s sent (some p) =
      rw (respond-with_ends es which (clock (length sent)) raw n s p) (simp (>>=-assoc))
  slot-with_ends s sent none = simp (>>=-assoc)

  answer-with_ends :
      (s : TcpServer × List Request)
      → answer which clock raw n (with_ends es s.0, s.1)
        ≡ (answer which clock raw n s >>= λ r. done (r.0, (with_ends es r.1.0, r.1.1)))
  unfolding answer
  answer-with_ends (s, sent) = simp (>>=-assoc, slot-with_ends)

-- The read callback as libuv runs it: each read takes some of what the provider agent has sent.
unfoldable pub serve_provider :
    (ℕ → ℤ)
    → ℕ
    → List ℕ
    → TcpServer
    → Bytes
    → List Request
    → Exec (TcpServer × Bytes × List Request)
serve_provider clock which [] s wire sent = done (s, wire, sent)
serve_provider clock which (k ∷ ks) s wire sent = do
  server ← must (get_elem? s.endpoint_servers which)
  let n = min (suc k) (min (alloc_buffer_to_agent server) (length wire))
  r ← c_read_from_provide_agents clock s which (arrived (take n wire)) sent
  serve_provider clock which ks r.0 (drop n wire) r.1

-- The inbox of one endpoint.
abbrev pub put_inbox : List EndpointServer → ℕ → EndpointServer → Inbox → List EndpointServer
put_inbox es which server i = set es which (record server { inbox = i })

module _ (clock : ℕ → ℤ) (which : ℕ) where
  reads_once :
      (es : List EndpointServer) (server : EndpointServer) (s : TcpServer) (chunk : Bytes)
      (sent : List Request)
      → get_elem? es which ≡ some server
      → c_read_from_provide_agents clock (with_ends es s) which (arrived chunk) sent ≡ (
          receive server.inbox chunk >>= λ i.
          drain 12 0 (answer which clock) (suc i.size) i (s, sent) >>= λ r.
          done (with_ends (put_inbox es which server r.0) r.1.0, r.1.1))
  unfolding c_read_from_provide_agents
  reads_once es server s chunk sent at =
      rw (at, must, ◌>>=◌)
        (>>=_congr (receive server.inbox chunk) (λ i.
          ap
            (λ (m : Exec (Inbox × (TcpServer × List Request))). m >>= λ r.
              done (with_ends (put_inbox r.1.0.endpoint_servers which server r.0) r.1.0, r.1.1))
            (drain_commutes 12 0 (answer which clock) (λ t. (with_ends es t.0, t.1))
              (λ raw n. answer-with_ends es which clock raw n) (suc i.size) i (s, sent))
          ∙ >>=-assoc (drain 12 0 (answer which clock) (suc i.size) i (s, sent)) _ _))

  serve_provider-pump :
      (ks : List ℕ) (es : List EndpointServer) (server : EndpointServer) (s : TcpServer)
      (wire : Bytes) (sent : List Request)
      → get_elem? es which ≡ some server
      → serve_provider clock which ks (with_ends es s) wire sent ≡ (
          pump 12 0 default_response_size (answer which clock) ks server.inbox wire (s, sent)
          >>= λ r. done (with_ends (put_inbox es which server r.0) r.2.0, r.1, r.2.1))
  unfolding serve_provider pump alloc_buffer_to_agent
  serve_provider-pump [] es server s wire sent at =
      ap (λ l. done (with_ends l s, wire, sent)) (sym (set-get_elem? es which server at))
  serve_provider-pump (k ∷ ks) es server s wire sent at =
      let n = read_size default_response_size k server.inbox wire in
      let once = reads_once es server s (take n wire) sent at in
      rw (at, must, ◌>>=◌, once)
        (>>=-assoc (receive server.inbox (take n wire)) _ _
          ∙ (>>=_congr (receive server.inbox (take n wire)) (λ i.
                let round = drain 12 0 (answer which clock) (suc i.size) i (s, sent) in
                >>=-assoc round _ _
                ∙ (>>=_congr round (λ r.
                      serve_provider-pump ks (put_inbox es which server r.0)
                        (record server { inbox = r.0 }) r.1.0 (drop n wire) r.1.1
                        (get_elem?-set_self es which _ (lt_of_get_elem? es which at))
                      ∙ >>=_congr
                          (pump 12 0 default_response_size (answer which clock) ks r.0 (drop n wire)
                            r.1)
                          (λ q.
                            ap (λ l. done (with_ends l q.2.0, q.1, q.2.1))
                              (set-set es which (record server { inbox = r.0 })
                                (record server { inbox = q.0 }))))
                    ∙ sym (>>=-assoc round _ _)))
              ∙ sym (>>=-assoc (receive server.inbox (take n wire)) _ _)))

length-reply_bytes : (m : Reply) → length (reply_bytes m) ≡ length m.body + 12
unfolding long_to_8bytes le_bytes
length-reply_bytes m = omega arith

replies :
    (clock : ℕ → ℤ) (which : ℕ)
    → Handles 12 0 default_response_size
        (answer which clock)
        reply_bytes
        IsReply
        (deliver which clock)
replies clock which = record {
  some_header = omega arith;
  has_header = λ m ok. omega (arith, length-reply_bytes m);
  fits = λ m ok. omega (arith, length-reply_bytes m, ok.1);
  short = omega arith;
  says_length = λ m ok. (
    length m.body,
    read_int-int_to_four_char [] (long_to_8bytes m.id ++ m.body) (length m.body)
        (omega (arith, ok.1)),
    sym (length-reply_bytes m),
  );
  handled = λ m rest n s ok len full.
      let same : n ≡ length m.body = omega (arith, len, length-reply_bytes m) in
      ap (λ k. answer which clock (reply_bytes m ++ rest) k s) same
      ∙ answer-deliver which clock m rest s ok;
}

-- However the bytes of a provider agent are cut into reads, if there are enough of those, the body of
-- each answer goes to the client whose request stands in the slot of its id, unchanged and in order,
-- and an answer without a request goes nowhere; nothing faults, the buffer is empty at the end, and
-- the server can go on. Each answer must have an id below 2^63 and fit with its header of twelve bytes
-- into the buffer of 4096. The server must know the endpoint, whose buffer must be empty at the start,
-- and each request in its dictionary must be under way.
pub serve_provider_answers_all :
    (clock : ℕ → ℤ) (which : ℕ) (ks : List ℕ) (s : TcpServer) (server : EndpointServer)
    (ms : List Reply)
    → IsReady which s
    → get_elem? s.endpoint_servers which ≡ some server
    → length server.inbox.buf ≡ default_response_size
    → server.inbox.size ≡ 0
    → IsAll IsReply ms
    → length (concat_map reply_bytes ms) ≤ length ks
    → (s' : TcpServer) × (server' : EndpointServer) × (serve_provider clock which ks s
          (concat_map reply_bytes ms)
          []
        ≡ done (s', [], concat_map (writes s) ms))
      × IsReady which s'
      × (get_elem? s'.endpoint_servers which ≡ some server')
      × (server'.inbox.size ≡ 0)
unfolding deref
serve_provider_answers_all clock which ks s server ms ready at full empty all enough =
    let (i, e, z, f) =
      pump_serves_all (replies clock which) ks server.inbox ms all full empty enough in
    let (s₁, ran, r) = delivers_all which clock ms s [] ready all in
    let es = s.endpoint_servers in
    let server' : EndpointServer = record server { inbox = i } in
    (
      with_ends (put_inbox es which server i) s₁,
      server',
      serve_provider-pump clock which ks es server s (concat_map reply_bytes ms) [] at
          ∙ rw (e (s, []), ran) refl,
      record { balancer = r.balancer; full = r.full; waiting = r.waiting },
      get_elem?-set_self es which server' (lt_of_get_elem? es which at),
      z,
    )
