-- ===== src/Mesh/Hops.antt =====
-- src/consumer_agent.c and src/provider_agent.c: one message through one read callback.
use service_mesh_agent.Base.{
  ℕ, ◌^◌, ◌≤◌, ◌<◌, ◌≡◌, refl, sym, ap, ◌∙◌, List, [], ◌∷◌, ◌++◌, Bytes, done, get_elem?, length,
  append-nil, arith, eq→==,
}
use service_mesh_agent.Base.Int.{ℤ}
use service_mesh_agent.Framing.{Inbox}
use service_mesh_agent.Framing.Stream.{IsAll}
use service_mesh_agent.LoadBalancer.{Selected}
use service_mesh_agent.Uv.{Request, uv_write}
use service_mesh_agent.Consumer.State.{HttpReq, EndpointServer, TcpServer}
use service_mesh_agent.Consumer.Sending.{IsForwarded, message}
use service_mesh_agent.Consumer.Deliver.{Reply, reply_bytes}
use service_mesh_agent.Consumer.Replies.{serve_provider, serve_provider_answers_all}
use service_mesh_agent.Consumer.Sent.{IsServing, sent-IsReady, sent-writes}
use service_mesh_agent.Provider.Relay.{TcpRelay, package_size}
use service_mesh_agent.Provider.Requests.{
  Post, post_bytes, dubbo_bytes, IsPost, serve_agent, serve_agent_relays_all,
}
use service_mesh_agent.Provider.Results.{
  length-http_bytes, Result, result_bytes, http_bytes, response_bytes,
}
use service_mesh_agent.Provider.Answers.{passed_on, serve_dubbo, serve_dubbo_answers_all}
use service_mesh_agent.Mesh.{IsEstablished, IsChosen, IsAnswerTo}

-- One request of the consumer agent becomes one dubbo request.
pub relays_one :
    (memory : Bytes) (ks : List ℕ) (relay : TcpRelay) (agent dubbo : ℕ) (post : Post)
    → length memory ≡ package_size
    → IsEstablished relay agent dubbo
    → IsPost post
    → length (post_bytes post) ≤ length ks
    → (i : Inbox) × (serve_agent memory ks relay (post_bytes post) []
        ≡ done (record relay { inbox_1 = i }, [], uv_write dubbo (dubbo_bytes post) ∷ []))
unfolding IsAll
relays_one memory ks relay agent dubbo post m e ok enough =
    let one = append-nil (post_bytes post) in
    let (i, ran, z) =
      serve_agent_relays_all memory ks relay dubbo (post ∷ []) m e.max e.inbox_1.size
        e.inbox_1.empty e.to_dubbo (ok, tt) (omega (arith, ap length one)) in
    (i, ap (λ w. serve_agent memory ks relay w []) (sym one) ∙ ran)

-- One answer with status 20 becomes one HTTP response, whatever is in the buffer of connection 1.
pub answers_one :
    (memory : Bytes) (ks : List ℕ) (relay : TcpRelay) (agent dubbo id : ℕ) (r : Result) (i : Inbox)
    → length memory ≡ package_size
    → IsEstablished relay agent dubbo
    → IsAnswerTo id r
    → length (result_bytes r) ≤ length ks
    → (i₂ : Inbox) × (serve_dubbo memory ks (record relay { inbox_1 = i }) (result_bytes r) []
        ≡ done (
          record relay { inbox_1 = i; inbox_2 = i₂ },
          [],
          uv_write agent (response_bytes r) ∷ [],
        ))
unfolding IsAll
answers_one memory ks relay agent dubbo id r i m e a enough =
    let one = append-nil (result_bytes r) in
    let relay₁ : TcpRelay = record relay { inbox_1 = i } in
    let (i₂, ran, z) =
      serve_dubbo_answers_all memory ks relay₁ agent (r ∷ []) m e.max e.inbox_2.size e.inbox_2.empty
        e.to_agent (a.well, tt) (omega (arith, ap length one)) in
    let passed : passed_on agent r ++ [] ≡ uv_write agent (response_bytes r) ∷ [] =
      rw (eq→== r.status 20 a.status) refl in
    (
      i₂,
      ap (λ w. serve_dubbo memory ks relay₁ w []) (sym one)
          ∙ (ran ∙ ap (λ (l : List Request). done (record relay₁ { inbox_2 = i₂ }, [], l)) passed),
    )

-- One HTTP response for a request that has been sent goes to the client of that request.
pub passes_one :
    (clock : ℕ → ℤ) (ks : List ℕ) (s s₁ : TcpServer) (p client : ℕ) (req : HttpReq) (now : ℤ)
    (sel : Selected) (endpoint : EndpointServer) (stream : ℕ) (r : Result)
    → IsServing s p req client
    → IsForwarded s p req sel s₁
    → IsChosen s now sel endpoint stream
    → s.req_id < 2 ^ 63
    → IsAnswerTo s.req_id r
    → length (response_bytes r) ≤ length ks
    → (s₂ : TcpServer) × (serve_provider clock sel.endpoint ks s₁ (response_bytes r) []
        ≡ done (s₂, [], uv_write client (http_bytes r.hash) ∷ []))
unfolding IsAll
passes_one clock ks s s₁ p client req now sel endpoint stream r i f c small a enough =
    let reply : Reply = record { id = s.req_id; body = http_bytes r.hash } in
    let bytes : response_bytes r ≡ reply_bytes reply ++ [] =
      ap (λ n. message n (http_bytes r.hash)) a.same_id ∙ sym (append-nil (reply_bytes reply)) in
    let (s₂, server, ran, ready, at, z) =
      serve_provider_answers_all clock sel.endpoint ks s₁ endpoint (reply ∷ [])
        (sent-IsReady s s₁ p client req sel i f now c.selected)
        (ap (λ l. get_elem? l sel.endpoint) f.same_endpoints ∙ c.is_endpoint) c.inbox.size
        c.inbox.empty ((small, omega (arith, length-http_bytes r.hash, a.well.1)), tt)
        (omega (arith, ap length bytes)) in
    (
      s₂,
      ap (λ w. serve_provider clock sel.endpoint ks s₁ w []) bytes
          ∙ (ran
              ∙ ap (λ (l : List Request). done (s₂, [], l ++ []))
                  (sent-writes s s₁ p client req sel i f (http_bytes r.hash))),
    )
