-- ===== src/Mesh/Answered.antt =====
-- src/consumer_agent.c and src/provider_agent.c: a request of a client and the answer to it.
use service_mesh_agent.Base.{
  ℕ, ◌^◌, ◌≤◌, ◌<◌, ◌≡◌, refl, List, [], ◌∷◌, Bytes, done, length, lt_of_get_elem?, must, ◌>>=◌,
}
use service_mesh_agent.Base.Int.{ℤ}
use service_mesh_agent.LoadBalancer.{Selected}
use service_mesh_agent.Tokenizer.Lookup.{Param}
use service_mesh_agent.Uv.{uv_write, arrived}
use service_mesh_agent.Consumer.State.{HttpReq, EndpointServer, TcpServer, deref}
use service_mesh_agent.Consumer.Serve.{Parsed, c_read_connection_data}
use service_mesh_agent.Consumer.Forward.{IsWhole, whole_request-IsForwarded}
use service_mesh_agent.Consumer.Replies.{serve_provider}
use service_mesh_agent.Consumer.Sent.{IsServing}
use service_mesh_agent.Provider.Relay.{TcpRelay, package_size}
use service_mesh_agent.Provider.Requests.{
  Post, text_of, post_bytes, dubbo_bytes, IsPost, serve_agent,
}
use service_mesh_agent.Provider.Results.{Result, result_bytes, http_bytes, response_bytes}
use service_mesh_agent.Provider.Answers.{serve_dubbo}
use service_mesh_agent.Mesh.{IsEstablished, IsChosen, IsAnswerTo}
use service_mesh_agent.Mesh.Hops.{relays_one, answers_one, passes_one}

module _ (phr_parse_request : Bytes → Parsed) (s : TcpServer) (p client : ℕ) (req : HttpReq)
    (chunk : Bytes) (first : Param) (others : List Param) (now : ℤ) (sel : Selected)
    (endpoint : EndpointServer) (stream : ℕ) (relay : TcpRelay) (agent dubbo : ℕ) (r : Result)
    (clock : ℕ → ℤ) (memory₁ memory₂ : Bytes) (ks₁ ks₂ ks₃ : List ℕ) where
  abbrev post : Post
  post = record { id = s.req_id; first = first; others = others }

  -- In a build with SSE4.2, a POST of a client comes to the dubbo server of the provider agent that the
  -- balancer selects as a dubbo request of the form that is its body, and what that server answers to
  -- it comes back to that client as an HTTP response, however libuv cuts what the agents and the server
  -- send into reads, if there are enough of those. The writes are all that the four callbacks ask of
  -- libuv. The POST must arrive whole with its last read, start a message, carry its Content-Length in
  -- the first field of its header, and have twelve bytes of header before the body or more. Its form
  -- must have at most fifteen fields whose URL escapes are whole, and both the form with 28 bytes and
  -- the body of the dubbo request with 16 must fit into 4096 bytes; the id must be below 2^63. The
  -- answer must have the same id, status 20 and a hash of less than 100 bytes. The streams and buffers
  -- must be those of agents that are connected, the buffers between them empty and of 4096 bytes, the
  -- load balancer sound, and each request in the dictionary of the consumer agent under way.
  pub client_gets_answer :
      IsServing s p req client
      → IsWhole phr_parse_request req chunk (text_of post)
      → IsChosen s now sel endpoint stream
      → IsPost post
      → s.req_id < 2 ^ 63
      → IsEstablished relay agent dubbo
      → IsAnswerTo s.req_id r
      → length memory₁ ≡ package_size
      → length memory₂ ≡ package_size
      → length (post_bytes post) ≤ length ks₁
      → length (result_bytes r) ≤ length ks₂
      → length (response_bytes r) ≤ length ks₃
      → (s₁ : TcpServer) × (relay₁ : TcpRelay) × (relay₂ : TcpRelay) × (s₂ : TcpServer)
        × (c_read_connection_data phr_parse_request s p (arrived chunk) now
            ≡ done (s₁, uv_write stream (post_bytes post) ∷ []))
        × (serve_agent memory₁ ks₁ relay (post_bytes post) []
            ≡ done (relay₁, [], uv_write dubbo (dubbo_bytes post) ∷ []))
        × (serve_dubbo memory₂ ks₂ relay₁ (result_bytes r) []
            ≡ done (relay₂, [], uv_write agent (response_bytes r) ∷ []))
        × (serve_provider clock sel.endpoint ks₃ s₁ (response_bytes r) []
            ≡ done (s₂, [], uv_write client (http_bytes r.hash) ∷ []))
  unfolding deref
  client_gets_answer i w c ok small e a m₁ m₂ enough₁ enough₂ enough₃ =
      let (s₁, ran₁, f) =
        whole_request-IsForwarded phr_parse_request s p req chunk (text_of post) now sel endpoint
          stream (rw (i.is_req, must, ◌>>=◌) refl) w c.selected c.is_endpoint c.is_stream i.full
          (lt_of_get_elem? s.requests p i.is_req) in
      let (i₁, ran₂) = relays_one memory₁ ks₁ relay agent dubbo post m₁ e ok enough₁ in
      let (i₂, ran₃) = answers_one memory₂ ks₂ relay agent dubbo s.req_id r i₁ m₂ e a enough₂ in
      let (s₂, ran₄) =
        passes_one clock ks₃ s s₁ p client req now sel endpoint stream r i f c small a enough₃ in
      let relay₁ : TcpRelay = record relay { inbox_1 = i₁ } in
      (s₁, relay₁, record relay₁ { inbox_2 = i₂ }, s₂, ran₁, ran₂, ran₃, ran₄)
