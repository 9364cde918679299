-- ===== src/Mesh/Tests.antt =====
-- Both agents on one request: a form with two fields, sent to the only endpoint.
use service_mesh_agent.Base.{
  ℕ, ◌≡◌, refl, List, [], ◌∷◌, ◌++◌, Bytes, done, some, none, Option, codes, replicate,
  length-replicate, arith, get_elem?, true, ◌≤◌, length, ◌≢◌, zero, suc,
}
use service_mesh_agent.Base.Int.{pos, ◌+ℤ◌}
use service_mesh_agent.Codec.{long_to_8bytes, le_bytes}
use service_mesh_agent.Framing.{Inbox, receive}
use service_mesh_agent.LoadBalancer.{
  LoadBalancer, Selected, init_history_time, select_endpoint_time_based, select_among, scan,
  estimate_cost, add_remain,
}
use service_mesh_agent.LoadBalancer.Finish.{fresh-IsValid}
use service_mesh_agent.Text.{atoi, digits}
use service_mesh_agent.Tokenizer.Offsets.{lacks, lacks-Lacks}
use service_mesh_agent.Tokenizer.Lookup.{Param}
use service_mesh_agent.Tokenizer.Request.{request_body}
use service_mesh_agent.Uv.{uv_write, arrived}
use service_mesh_agent.Consumer.State.{HttpReq, EndpointServer, TcpServer}
use service_mesh_agent.Consumer.Serve.{Parsed, header, c_read_connection_data}
use service_mesh_agent.Consumer.Forward.{IsWhole}
use service_mesh_agent.Consumer.Replies.{serve_provider}
use service_mesh_agent.Consumer.Sent.{IsServing}
use service_mesh_agent.Provider.Relay.{TcpRelay, package_size}
use service_mesh_agent.Provider.Requests.{Post, post_bytes, dubbo_bytes, IsPost, serve_agent}
use service_mesh_agent.Provider.Results.{Result, result_bytes, http_bytes, response_bytes}
use service_mesh_agent.Provider.Answers.{serve_dubbo}
use service_mesh_agent.Mesh.{IsEmpty, IsEstablished, IsChosen, IsAnswerTo}
use service_mesh_agent.Mesh.Answered.{client_gets_answer}

abbrev memory : Bytes
memory = replicate 4096 0

abbrev empty_inbox : Inbox
empty_inbox = record { buf = memory; size = 0 }

empty_inbox-IsEmpty : IsEmpty 4096 empty_inbox
empty_inbox-IsEmpty = record { size = length-replicate {A = ℕ} 4096 0; empty = refl }

abbrev reads : List ℕ
reads = replicate 80 3

-- A header of twelve bytes, whose first field says that 27 bytes follow.
abbrev parse : Bytes → Parsed
parse text = header 12 (some (codes "27"))

abbrev interface_field : Param
interface_field = record {
  key = codes "interface";
  escapes = record { before = codes "a"; high = b'2'; low = b'F' } ∷ [];
  last = codes "b";
}

abbrev method_field : Param
method_field = record { key = codes "method"; escapes = []; last = codes "hash" }

abbrev form : Bytes
form = codes "interface=a%2Fb&method=hash"

abbrev request : HttpReq
request = record {
  client = some 9;
  inbox = record { buf = replicate 50 0; size = 0 };
  request_length = none;
  req_id = none;
  response_package = memory;
  ts_req_beg = pos 0;
}

abbrev endpoint : EndpointServer
endpoint = record { inbox = empty_inbox; tcp_stream = some 4; conn = some 5; connected = true }

abbrev one_end : LoadBalancer
one_end = record { num_of_ends = 1; history_diff_time_lst = init_history_time ∷ [] }

abbrev server : TcpServer
server = record {
  endpoint_connection_count = 1;
  req_id = 40;
  endpoint_servers = endpoint ∷ [];
  http_req_dict = replicate 8192 none;
  requests = some request ∷ [];
  global_lb = one_end;
  global_conn_remain_count = pos 1;
}

no_slot : (n i q : ℕ) → get_elem? (replicate {A = Option ℕ} n none) i ≢ some (some q)
no_slot zero i q h = cc
no_slot (suc n) zero q h = cc
no_slot (suc n) (suc i) q h = no_slot n i q h

server-IsServing : IsServing server 0 request 9
server-IsServing = record {
  sound = record { counted = refl; each = (fresh-IsValid, tt) };
  full = length-replicate {A = Option ℕ} 8192 none;
  waiting = λ slot q h. absurd (no_slot 8192 slot q h);
  is_req = refl;
  is_client = refl;
  has_room = length-replicate {A = ℕ} 4096 0;
}

abbrev selected : Selected
selected = record {
  endpoint = 0;
  balancer = record one_end {
    history_diff_time_lst = record init_history_time { remain = pos 0 +ℤ pos 1 } ∷ [];
  };
  ts_req_beg = pos 5;
}

selects : select_endpoint_time_based one_end (pos 5) ≡ done selected
unfolding select_endpoint_time_based select_among scan estimate_cost add_remain
selects = refl

server-IsChosen : IsChosen server (pos 5) selected endpoint 4
server-IsChosen = record {
  selected = selects;
  is_endpoint = refl;
  is_stream = refl;
  inbox = empty_inbox-IsEmpty;
}

abbrev chunk : Bytes
chunk = replicate 12 65 ++ form

chunk-IsWhole : IsWhole parse request chunk form
unfolding receive atoi digits
chunk-IsWhole = record {
  inbox = record { buf = chunk ++ replicate 11 0; size = 39 };
  value = codes "27";
  head = [];
  four = replicate 4 65;
  eight = replicate 8 65;
  rest = replicate 11 0;
  is_first = refl;
  received = refl;
  parsed = refl;
  counted = refl;
  laid = refl;
  is_four = refl;
  is_eight = refl;
  all_there = omega arith;
  small = omega arith;
}

abbrev sent_post : Post
sent_post = record { id = 40; first = interface_field; others = method_field ∷ [] }

sent_post-IsPost : IsPost sent_post
unfolding lacks request_body
sent_post-IsPost = (
  omega arith,
  (
    lacks-Lacks b'=' (codes "interface") refl,
    lacks-Lacks b'&' (codes "a%2Fb") refl,
    (lacks-Lacks b'=' (codes "method") refl, lacks-Lacks b'&' (codes "hash") refl, tt),
  ),
  (
    (lacks-Lacks b'%' (codes "a") refl, lacks-Lacks b'%' (codes "b") refl),
    (lacks-Lacks b'%' (codes "hash") refl, tt),
  ),
  omega arith,
  omega arith,
  omega arith,
)

abbrev relay : TcpRelay
relay = record {
  address = 4;
  raw_buf1 = 5;
  raw_buf2 = 6;
  tcp_conn_1 = some 1;
  tcp_conn_2 = some 2;
  dubbo_connection = some 3;
  inbox_1 = empty_inbox;
  inbox_2 = empty_inbox;
  max_buffer_size = package_size;
}

relay-IsEstablished : IsEstablished relay 1 2
relay-IsEstablished = record {
  max = refl;
  to_agent = refl;
  to_dubbo = refl;
  inbox_1 = empty_inbox-IsEmpty;
  inbox_2 = empty_inbox-IsEmpty;
}

abbrev result : Result
result = record {
  magic₀ = 0xda;
  magic₁ = 0xbb;
  flags = 6;
  status = 20;
  id = 40;
  lead₀ = b'1';
  lead₁ = 10;
  hash = codes "-123456";
  last = 10;
}

result-IsAnswerTo : IsAnswerTo 40 result
result-IsAnswerTo = record { well = (omega arith, omega arith); same_id = refl; status = refl }

enough_reads :
    (length (post_bytes sent_post) ≤ length reads)
    × (length (result_bytes result) ≤ length reads)
    × (length (response_bytes result) ≤ length reads)
unfolding long_to_8bytes le_bytes
enough_reads = (omega arith, omega arith, omega arith)

client_gets_answer_example :
    (s₁ : TcpServer) × (relay₁ : TcpRelay) × (relay₂ : TcpRelay) × (s₂ : TcpServer)
    × (c_read_connection_data parse server 0 (arrived chunk) (pos 5)
        ≡ done (s₁, uv_write 4 (post_bytes sent_post) ∷ []))
    × (serve_agent memory reads relay (post_bytes sent_post) []
        ≡ done (relay₁, [], uv_write 2 (dubbo_bytes sent_post) ∷ []))
    × (serve_dubbo memory reads relay₁ (result_bytes result) []
        ≡ done (relay₂, [], uv_write 1 (response_bytes result) ∷ []))
    × (serve_provider (λ n. pos 9) 0 reads s₁ (response_bytes result) []
        ≡ done (s₂, [], uv_write 9 (http_bytes (codes "-123456")) ∷ []))
client_gets_answer_example =
    client_gets_answer parse server 0 9 request chunk interface_field (method_field ∷ []) (pos 5)
      selected endpoint 4 relay 1 2 result (λ n. pos 9) memory memory reads reads reads
      server-IsServing chunk-IsWhole server-IsChosen sent_post-IsPost (omega arith)
      relay-IsEstablished result-IsAnswerTo (length-replicate {A = ℕ} 4096 0)
      (length-replicate {A = ℕ} 4096 0) enough_reads.0 enough_reads.1 enough_reads.2
