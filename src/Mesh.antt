-- ===== src/Mesh.antt =====
-- Both agents together: src/consumer_agent.c and src/provider_agent.c between a client and a dubbo
-- server. libuv carries the bytes of each write to the reads of its peer, cut in any way.
--   Hops      what one read callback makes of one message
--   Answered  from the request of a client to its answer
pub mod Hops
pub mod Answered
mod Tests
use service_mesh_agent.Base.{
  ℕ, ◌^◌, ◌≤◌, ◌<◌, ◌≡◌, refl, sym, ap, ◌∙◌, List, [], ◌∷◌, ◌++◌, Bytes, Exec, done, get_elem?,
  length, some, Option, append-nil, arith, lt_of_get_elem?, concat_map, must, ◌>>=◌, eq→==,
}
use service_mesh_agent.Base.Int.{ℤ}
use service_mesh_agent.Framing.{Inbox}
use service_mesh_agent.Framing.Stream.{IsAll}
use service_mesh_agent.LoadBalancer.{Selected, select_endpoint_time_based}
use service_mesh_agent.Tokenizer.Lookup.{Param}
use service_mesh_agent.Uv.{Request, uv_write, arrived}
use service_mesh_agent.Consumer.State.{
  HttpReq, EndpointServer, TcpServer, default_response_size, deref,
}
use service_mesh_agent.Consumer.Serve.{Parsed, c_read_connection_data}
use service_mesh_agent.Consumer.Forward.{IsWhole, whole_request-IsForwarded}
use service_mesh_agent.Consumer.Sending.{IsForwarded, message}
use service_mesh_agent.Consumer.Deliver.{Reply, reply_bytes}
use service_mesh_agent.Consumer.Delivered.{writes}
use service_mesh_agent.Consumer.Replies.{serve_provider, serve_provider_answers_all}
use service_mesh_agent.Consumer.Sent.{IsServing, sent-IsReady, sent-writes}
use service_mesh_agent.Provider.Relay.{TcpRelay, package_size}
use service_mesh_agent.Provider.Requests.{
  Post, text_of, post_bytes, dubbo_bytes, IsPost, serve_agent, serve_agent_relays_all,
}
use service_mesh_agent.Provider.Results.{
  length-http_bytes, Result, IsResult, result_bytes, http_bytes, response_bytes,
}
use service_mesh_agent.Provider.Answers.{passed_on, serve_dubbo, serve_dubbo_answers_all}

-- A buffer that waits for the first byte of a message.
pub record IsEmpty (max : ℕ) (i : Inbox) : Type 0 where
  pub size : length i.buf ≡ max
  pub empty : i.size ≡ 0

-- A relay between its consumer agent and the dubbo server.
pub record IsEstablished (relay : TcpRelay) (agent dubbo : ℕ) : Type 0 where
  pub max : relay.max_buffer_size ≡ package_size
  pub to_agent : relay.tcp_conn_1 ≡ some agent
  pub to_dubbo : relay.tcp_conn_2 ≡ some dubbo
  pub inbox_1 : IsEmpty package_size relay.inbox_1
  pub inbox_2 : IsEmpty package_size relay.inbox_2

-- The endpoint that the consumer agent chooses for the request.
pub record IsChosen (s : TcpServer) (now : ℤ) (sel : Selected) (endpoint : EndpointServer)
    (stream : ℕ) : Type 0 where
  pub selected : select_endpoint_time_based s.global_lb now ≡ done sel
  pub is_endpoint : get_elem? s.endpoint_servers sel.endpoint ≡ some endpoint
  pub is_stream : endpoint.tcp_stream ≡ some stream
  pub inbox : IsEmpty default_response_size endpoint.inbox

-- The answer of the dubbo server to request `id`.
pub record IsAnswerTo (id : ℕ) (r : Result) : Type 0 where
  pub well : IsResult r
  pub same_id : r.id ≡ id
  pub status : r.status ≡ 20
