-- ===== src/Provider/Answers.antt =====
-- src/provider_agent.c: the read callback of connection 2 over a whole connection.
use service_mesh_agent.Base.{
  ℕ, suc, ◌+◌, ◌-◌, ◌≤◌, ◌≡◌, refl, sym, ◌∙◌, inl, inr, List, [], ◌∷◌, ◌++◌, ◌==◌, if◌then◌else◌,
  Bytes, Exec, done, ◌>>=◌, must, some, length, take, drop, min, arith, append-nil, concat_map,
  Bool-cases, >>=-assoc, >>=_congr,
}
use service_mesh_agent.Codec.{read_int, long_to_8bytes, le_bytes}
use service_mesh_agent.Codec.FourBytes.{read_int-int_to_four_char}
use service_mesh_agent.Framing.{Inbox, receive, drain}
use service_mesh_agent.Framing.Stream.{Handles, IsAll, emits, apply_all-emits}
use service_mesh_agent.Framing.Pump.{pump, read_size, pump_serves_all}
use service_mesh_agent.Uv.{Request, uv_write, arrived}
use service_mesh_agent.Provider.Relay.{
  TcpRelay, package_size, relay_result, p_alloc_buffer2, p_on_read_results,
}
use service_mesh_agent.Provider.Results.{
  Result, IsResult, result_bytes, response_bytes, length-result_bytes, builds,
}

-- Only an answer with status 20 is passed on.
abbrev pub passed_on : ℕ → Result → List Request
passed_on conn m = if m.status == 20 then uv_write conn (response_bytes m) ∷ [] else []

says_length : (m : Result) → IsResult m → read_int (result_bytes m) 12 ≡ done (length m.hash + 3)
unfolding long_to_8bytes le_bytes
says_length m ok =
    read_int-int_to_four_char (m.magic₀ ∷ m.magic₁ ∷ m.flags ∷ m.status ∷ long_to_8bytes m.id)
      (m.lead₀ ∷ m.lead₁ ∷ (m.hash ++ m.last ∷ [])) (length m.hash + 3) (omega (arith, ok.1))

module _ (fresh : Bytes) (size : length fresh ≡ package_size) (conn : ℕ) where
  handles_result :
      (m : Result) (rest : Bytes) (n : ℕ) (out : List Request)
      → IsResult m
      → n + 16 ≡ length (result_bytes m)
      → length (result_bytes m ++ rest) ≡ package_size
      → relay_result fresh (some conn) (result_bytes m ++ rest) n out
        ≡ done (result_bytes m ++ rest, out ++ passed_on conn m)
  unfolding relay_result
  handles_result m rest n out ok len full =
      let same : n ≡ length m.hash + 3 = omega (arith, len, length-result_bytes m) in
      elim (Bool-cases (m.status == 20)) [
        | inl t ↦ rw (same, t, builds fresh size m rest ok, ◌>>=◌, must) refl
        | inr f ↦ rw (f, append-nil out) refl
      ]

  results :
      Handles 16 12 package_size
        (relay_result fresh (some conn))
        result_bytes
        IsResult
        (emits (passed_on conn))
  results = record {
    some_header = omega arith;
    has_header = λ m ok. omega (arith, length-result_bytes m);
    fits = λ m ok. omega (arith, length-result_bytes m, ok.1);
    short = omega arith;
    says_length =
        λ m ok. (length m.hash + 3, says_length m ok, omega (arith, length-result_bytes m));
    handled = handles_result;
  }

-- The read callback as libuv runs it: each read takes some of what the dubbo server has sent.
unfoldable pub serve_dubbo :
    Bytes → List ℕ → TcpRelay → Bytes → List Request → Exec (TcpRelay × Bytes × List Request)
serve_dubbo fresh [] relay wire sent = done (relay, wire, sent)
serve_dubbo fresh (k ∷ ks) relay wire sent = do
  let n = min (suc k) (min (p_alloc_buffer2 relay) (length wire))
  r ← p_on_read_results fresh relay (arrived (take n wire)) sent
  serve_dubbo fresh ks r.0 (drop n wire) r.1

module _ (fresh : Bytes) where
  serve_dubbo-pump :
      (ks : List ℕ) (relay : TcpRelay) (wire : Bytes) (sent : List Request)
      → relay.max_buffer_size ≡ package_size
      → serve_dubbo fresh ks relay wire sent ≡ (
          pump 16 12 package_size (relay_result fresh relay.tcp_conn_1) ks relay.inbox_2 wire sent
          >>= λ r. done (record relay { inbox_2 = r.0 }, r.1, r.2))
  unfolding serve_dubbo pump p_on_read_results p_alloc_buffer2
  serve_dubbo-pump [] relay wire sent size = refl
  serve_dubbo-pump (k ∷ ks) relay wire sent size =
      let n = min (suc k) (min (relay.max_buffer_size - relay.inbox_2.size) (length wire)) in
      let same : n ≡ min (suc k) (min (package_size - relay.inbox_2.size) (length wire)) =
        omega arith in
      let m = read_size package_size k relay.inbox_2 wire in
      let got =
        λ (i : Inbox). drain 16 12 (relay_result fresh relay.tcp_conn_1) (suc i.size) i sent in
      rw (same) (
        >>=-assoc (receive relay.inbox_2 (take m wire)) _ _
        ∙ (>>=_congr (receive relay.inbox_2 (take m wire)) (λ i.
              >>=-assoc (got i) _ _
              ∙ (>>=_congr (got i) (λ r.
                    serve_dubbo-pump ks (record relay { inbox_2 = r.0 }) (drop m wire) r.1 size)
                  ∙ sym (>>=-assoc (got i) _ _)))
            ∙ sym (>>=-assoc (receive relay.inbox_2 (take m wire)) _ _)))

-- However the bytes of the dubbo server are cut into reads, if there are enough of those, each answer
-- with status 20 and a hash of less than a hundred bytes is sent to the consumer agent as one HTTP
-- response with the length of the hash and the id of its request, in order; an answer with another
-- status is dropped. The buffer of the relay is empty at the end, the rest of it as before.
pub serve_dubbo_answers_all :
    (fresh : Bytes) (ks : List ℕ) (relay : TcpRelay) (conn : ℕ) (ms : List Result)
    → length fresh ≡ package_size
    → relay.max_buffer_size ≡ package_size
    → length relay.inbox_2.buf ≡ package_size
    → relay.inbox_2.size ≡ 0
    → relay.tcp_conn_1 ≡ some conn
    → IsAll IsResult ms
    → length (concat_map result_bytes ms) ≤ length ks
    → (i : Inbox) × (serve_dubbo fresh ks relay (concat_map result_bytes ms) []
        ≡ done (record relay { inbox_2 = i }, [], concat_map (passed_on conn) ms))
      × (i.size ≡ 0)
serve_dubbo_answers_all fresh ks relay conn ms size room full empty to all enough =
    let (i, e, z, f) =
      pump_serves_all (results fresh size conn) ks relay.inbox_2 ms all full empty enough in
    let written = apply_all-emits (passed_on conn) ms [] in
    (
      i,
      serve_dubbo-pump fresh ks relay (concat_map result_bytes ms) [] room
          ∙ rw (to, e [], written) refl,
      z,
    )
