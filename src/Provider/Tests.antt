-- ===== src/Provider/Tests.antt =====
-- src/provider_agent.c on concrete messages.
use service_mesh_agent.Base.{
  none, true, ℕ, ◌≤◌, ◌≡◌, refl, List, [], ◌∷◌, Bytes, arith, codes, replicate, length,
  length-replicate, some, done, concat_map,
}
use service_mesh_agent.Codec.{long_to_8bytes, le_bytes}
use service_mesh_agent.Framing.{Inbox}
use service_mesh_agent.Framing.Stream.{IsAll}
use service_mesh_agent.Tokenizer.Offsets.{lacks, lacks-Lacks}
use service_mesh_agent.Tokenizer.Lookup.{Param}
use service_mesh_agent.Tokenizer.Request.{request_body}
use service_mesh_agent.Uv.{uv_write, closes, Request, Heap}
use service_mesh_agent.Provider.Life.{
  p_on_new_connection, p_close_tcp_relay_connection2, test_dubbo_connection,
}
use service_mesh_agent.Provider.Ownership.{retries, relay_frees_its_handles}
use service_mesh_agent.Provider.Probe.{probes, probes_free_their_handles}
use service_mesh_agent.Provider.Relay.{TcpRelay, package_size}
use service_mesh_agent.Provider.Results.{Result, IsResult, result_bytes}
use service_mesh_agent.Provider.Answers.{passed_on, serve_dubbo, serve_dubbo_answers_all}
use service_mesh_agent.Provider.Requests.{
  Post, post_bytes, dubbo_bytes, IsPost, serve_agent, serve_agent_relays_all,
}

abbrev reads : List ℕ
reads = replicate 100 3

abbrev memory : Bytes
memory = replicate 4096 0

length-memory : length memory ≡ 4096
length-memory = length-replicate {A = ℕ} 4096 0

abbrev interface_field : Param
interface_field = record {
  key = codes "interface";
  escapes = record { before = codes "a"; high = b'2'; low = b'F' } ∷ [];
  last = codes "b";
}

abbrev method_field : Param
method_field = record { key = codes "method"; escapes = []; last = codes "hash" }

abbrev post : Post
post = record { id = 7; first = interface_field; others = method_field ∷ [] }

abbrev relay : TcpRelay
relay = record {
  address = 4;
  raw_buf1 = 5;
  raw_buf2 = 6;
  tcp_conn_1 = some 1;
  tcp_conn_2 = some 2;
  dubbo_connection = some 3;
  inbox_1 = record { buf = memory; size = 0 };
  inbox_2 = record { buf = memory; size = 0 };
  max_buffer_size = package_size;
}

post-IsPost : IsPost post
unfolding lacks request_body
post-IsPost = (
  omega arith,
  (
    lacks-Lacks b'=' (codes "interface") refl,
    lacks-Lacks b'&' (codes "a%2Fb") refl,
    (lacks-Lacks b'=' (codes "method") refl, lacks-Lacks b'&' (codes "hash") refl, tt),
  ),
  (
    (lacks-Lacks b'%' (codes "a") refl, lacks-Lacks b'%' (codes "b") refl),
    (lacks-Lacks b'%' (codes "hash") refl, tt),
  ),
  omega arith,
  omega arith,
  omega arith,
)

posts-IsPost : IsAll IsPost (post ∷ post ∷ [])
unfolding IsAll
posts-IsPost = (post-IsPost, (post-IsPost, tt))

enough_reads : length (concat_map post_bytes (post ∷ post ∷ [])) ≤ length reads
unfolding long_to_8bytes le_bytes
enough_reads = omega arith

serve_agent_relays_all_example :
    (i : Inbox) × (serve_agent memory reads relay (concat_map post_bytes (post ∷ post ∷ [])) []
      ≡ done (
        record relay { inbox_1 = i },
        [],
        concat_map (λ m. uv_write 2 (dubbo_bytes m) ∷ []) (post ∷ post ∷ []),
      ))
    × (i.size ≡ 0)
serve_agent_relays_all_example =
    serve_agent_relays_all memory reads relay 2 (post ∷ post ∷ []) (length-memory) refl
      (length-memory) refl refl posts-IsPost enough_reads

abbrev result : Result
result = record {
  magic₀ = 0xda;
  magic₁ = 0xbb;
  flags = 6;
  status = 20;
  id = 7;
  lead₀ = b'1';
  lead₁ = 10;
  hash = codes "-123456";
  last = 10;
}

abbrev refused : Result
refused = record result { status = 40 }

results-IsResult : IsAll IsResult (result ∷ refused ∷ [])
unfolding IsAll
results-IsResult = ((omega arith, omega arith), ((omega arith, omega arith), tt))

enough_results : length (concat_map result_bytes (result ∷ refused ∷ [])) ≤ length reads
unfolding long_to_8bytes le_bytes
enough_results = omega arith

serve_dubbo_answers_all_example :
    (i : Inbox) × (serve_dubbo memory reads relay
        (concat_map result_bytes (result ∷ refused ∷ []))
        []
      ≡ done (record relay { inbox_2 = i }, [], concat_map (passed_on 1) (result ∷ refused ∷ [])))
    × (i.size ≡ 0)
serve_dubbo_answers_all_example =
    serve_dubbo_answers_all memory reads relay 1 (result ∷ refused ∷ []) length-memory refl
      length-memory refl refl results-IsResult enough_results

abbrev heap : Heap
heap = record { next = 5; live = 3 ∷ 1 ∷ [] }

relay_frees_its_handles_example :
    (h₁ : Heap) × (relay : TcpRelay) × (asked : List Request) × (h₂ : Heap) × (relay' : TcpRelay)
    × (again : List Request) × (h₃ : Heap) × (p_on_new_connection memory memory heap true true
        ≡ done (h₁, some relay, asked))
    × (retries 2 h₁ relay ≡ done (h₂, relay', again))
    × (closes again ≡ [])
    × (p_close_tcp_relay_connection2 h₂ relay' ≡ done h₃)
    × (h₃.live ≡ relay'.raw_buf2 ∷ relay'.raw_buf1 ∷ 3 ∷ 1 ∷ [])
relay_frees_its_handles_example = relay_frees_its_handles memory memory heap 2

probes_free_their_handles_example :
    let (probe, h, asked) = test_dubbo_connection heap in
    (h' : Heap) × (again : List Request) × (probes h probe 2 ≡ done (h', none, again))
    × (h'.live ≡ 3 ∷ 1 ∷ [])
    × (closes again ≡ 10 ∷ [])
unfolding test_dubbo_connection
probes_free_their_handles_example = probes_free_their_handles heap 2
