-- ===== src/Consumer/Tests.antt =====
-- src/consumer_agent.c on concrete requests.
use service_mesh_agent.Base.{
  ℕ, ◌+◌, ◌%◌, ◌<◌, ◌≡◌, refl, List, [], ◌∷◌, ◌++◌, Bytes, done, fault, ◌>>=◌, must, some, none,
  Option, replicate, length-replicate, codes, arith, true, set, zero, suc, ◌≢◌, ◌≤◌, sym, ap, ◌∙◌,
  length, length-set, get_elem?, get_elem?-set_self, get_elem?-set_ne, concat_map,
}
use service_mesh_agent.Base.Int.{pos, negsuc, ◌+ℤ◌, ◌-ℤ◌}
use service_mesh_agent.Base.Words.{int_to_size, u32}
use service_mesh_agent.Framing.{Inbox, receive}
use service_mesh_agent.LoadBalancer.{
  LoadBalancer, Selected, init_history_time, select_endpoint_time_based, select_among, scan,
  estimate_cost, add_remain,
}
use service_mesh_agent.Text.{atoi, digits}
use service_mesh_agent.Uv.{uv_write, arrived, again, eof}
use service_mesh_agent.Consumer.State.{HttpReq, EndpointServer, TcpServer, deref, hash_slot_num}
use service_mesh_agent.Consumer.Serve.{Parsed, header, c_read_connection_data, close_client}
use service_mesh_agent.Consumer.Answer.{c_read_from_provide_agents}
use service_mesh_agent.Consumer.Events.{Event, client_read, provider_read, step, run}
use service_mesh_agent.Consumer.Kept.{slot_kept}
use service_mesh_agent.Consumer.Deliver.{Reply, IsReply, reply_bytes}
use service_mesh_agent.Consumer.Delivered.{IsReady, writes}
use service_mesh_agent.Consumer.Replies.{serve_provider, serve_provider_answers_all}
use service_mesh_agent.LoadBalancer.Finish.{fresh-IsValid}
use service_mesh_agent.Framing.Stream.{IsAll}
use service_mesh_agent.Codec.{long_to_8bytes, le_bytes}
use native.Mathlib.Decide.{ℕ_discrete}
use service_mesh_agent.Consumer.Forward.{IsWhole, whole_request-IsForwarded, split_request_faults}
use service_mesh_agent.Consumer.Sending.{message, IsForwarded}

-- A header of twelve bytes, whose first field says that three bytes follow.
abbrev parse : Bytes → Parsed
parse text = header 12 (some (codes "3"))

abbrev fresh_request : HttpReq
fresh_request = record {
  client = some 9;
  inbox = record { buf = replicate 30 0; size = 0 };
  request_length = none;
  req_id = none;
  response_package = [];
  ts_req_beg = pos 0;
}

abbrev waiting_request : HttpReq
waiting_request = record fresh_request { response_package = replicate 6 0; ts_req_beg = pos 5 }

abbrev endpoint : EndpointServer
endpoint = record {
  inbox = record { buf = []; size = 0 };
  tcp_stream = some 4;
  conn = some 5;
  connected = true;
}

abbrev one_end : LoadBalancer
one_end = record { num_of_ends = 1; history_diff_time_lst = init_history_time ∷ [] }

abbrev slots : List (Option ℕ)
slots = replicate 8192 none

abbrev server : TcpServer
server = record {
  endpoint_connection_count = 1;
  req_id = 40;
  endpoint_servers = endpoint ∷ [];
  http_req_dict = slots;
  requests = some fresh_request ∷ [];
  global_lb = one_end;
  global_conn_remain_count = pos 1;
}

abbrev selected : Selected
selected = record {
  endpoint = 0;
  balancer = record one_end {
    history_diff_time_lst = record init_history_time { remain = pos 0 +ℤ pos 1 } ∷ [];
  };
  ts_req_beg = pos 5;
}

selects : select_endpoint_time_based one_end (pos 5) ≡ done selected
unfolding select_endpoint_time_based select_among scan estimate_cost add_remain
selects = refl

abbrev head_bytes : Bytes
head_bytes = replicate 12 65

abbrev whole : Inbox
whole = record { buf = head_bytes ++ (codes "a=b" ++ replicate 15 0); size = 15 }

abbrev partial : Inbox
partial = record { buf = head_bytes ++ replicate 18 0; size = 12 }

receives : receive fresh_request.inbox (head_bytes ++ codes "a=b") ≡ done whole
unfolding receive
receives = refl

receives_head : receive fresh_request.inbox head_bytes ≡ done partial
unfolding receive
receives_head = refl

receives_body : receive partial (codes "a=b") ≡ done whole
unfolding receive
receives_body = refl

deref-fresh : deref server 0 ≡ done fresh_request
unfolding deref
deref-fresh = refl

three : atoi (codes "3") ≡ 3
unfolding atoi digits
three = refl

arrives-IsWhole : IsWhole parse fresh_request (head_bytes ++ codes "a=b") (codes "a=b")
arrives-IsWhole = record {
  inbox = whole;
  value = codes "3";
  head = [];
  four = replicate 4 65;
  eight = replicate 8 65;
  rest = replicate 15 0;
  is_first = refl;
  received = receives;
  parsed = refl;
  counted = three;
  laid = refl;
  is_four = refl;
  is_eight = refl;
  all_there = omega arith;
  small = omega arith;
}

whole_request-IsForwarded_example :
    (s' : TcpServer) × (c_read_connection_data parse server 0
        (arrived (head_bytes ++ codes "a=b"))
        (pos 5)
      ≡ done (s', uv_write 4 (message 40 (codes "a=b")) ∷ []))
    × IsForwarded server 0 fresh_request selected s'
whole_request-IsForwarded_example =
    whole_request-IsForwarded parse server 0 fresh_request (head_bytes ++ codes "a=b") (codes "a=b")
      (pos 5) selected endpoint 4 deref-fresh arrives-IsWhole selects refl refl
      (length-replicate {A = Option ℕ} 8192 none) (omega arith)

-- Request 40 has been sent.
abbrev after_sending :
    (s' : TcpServer) × (c_read_connection_data parse server 0
        (arrived (head_bytes ++ codes "a=b"))
        (pos 5)
      ≡ done (s', uv_write 4 (message 40 (codes "a=b")) ∷ []))
    × IsForwarded server 0 fresh_request selected s'
after_sending =
    whole_request-IsForwarded parse server 0 fresh_request (head_bytes ++ codes "a=b") (codes "a=b")
      (pos 5) selected endpoint 4 deref-fresh arrives-IsWhole selects refl refl
      (length-replicate {A = Option ℕ} 8192 none) (omega arith)

-- Its client has nothing more to say, then leaves; the provider agent is idle.
abbrev meanwhile : List Event
meanwhile =
    client_read 0 again (pos 6)
    ∷ client_read 0 eof (pos 7)
    ∷ provider_read 0 again (λ n. pos 8)
    ∷ []

runs_meanwhile : (s₂ : TcpServer) × (run parse meanwhile after_sending.0 ≡ done s₂)
unfolding run step c_read_connection_data close_client c_read_from_provide_agents deref
runs_meanwhile =
    let s = after_sending.0 in
    let sent = after_sending.2.emptied in
    (
      record s { global_conn_remain_count = s.global_conn_remain_count -ℤ pos 1 },
      rw (sent.1, must, ◌>>=◌, sent.6) refl,
    )

slot_kept_example : get_elem? (runs_meanwhile.0).http_req_dict (40 % hash_slot_num) ≡ some (some 0)
slot_kept_example =
    slot_kept parse server after_sending.0 runs_meanwhile.0 0 fresh_request selected meanwhile
      after_sending.2 runs_meanwhile.1 (omega arith)

too_short : partial.size < int_to_size (u32 (atoi (codes "3") + 12))
too_short = rw (three) (omega arith)

split_request_faults_example :
    (c_read_connection_data parse server 0 (arrived head_bytes) (pos 5) >>= λ r.
    c_read_connection_data parse r.0 0 (arrived (codes "a=b")) (pos 6))
    ≡ fault
split_request_faults_example =
    split_request_faults parse server 0 fresh_request head_bytes (codes "a=b") partial whole 12
      (codes "3") (pos 5) (pos 6) deref-fresh refl receives_head refl too_short receives_body
      (omega arith)

-- Request 40 is under way.
abbrev waiting : TcpServer
waiting = record server {
  http_req_dict = set slots 40 (some 0);
  requests = some waiting_request ∷ [];
}

abbrev finished_balancer : LoadBalancer
finished_balancer = record one_end {
  history_diff_time_lst =
      record {
        diff_time_sum = pos 3150004;
        head = 1;
        tail = 0;
        remain = negsuc 0;
        diff_time_history = set (replicate 64 (pos 50000)) 0 (pos 4);
      }
      ∷ [];
}

-- The same with a package of the size that the agent gives it.
abbrev under_way : TcpServer
under_way = record server {
  endpoint_servers = record endpoint { inbox = record { buf = replicate 4096 0; size = 0 } } ∷ [];
  http_req_dict = set slots 40 (some 0);
  requests = some (record waiting_request { response_package = replicate 4096 0 }) ∷ [];
}

no_slot : (n i p : ℕ) → get_elem? (replicate {A = Option ℕ} n none) i ≢ some (some p)
no_slot zero i p h = cc
no_slot (suc n) zero p h = cc
no_slot (suc n) (suc i) p h = no_slot n i p h

under_way-IsReady : IsReady 0 under_way
under_way-IsReady = record {
  balancer = record {
    sound = record { counted = refl; each = (fresh-IsValid, tt) };
    known = omega arith;
  };
  full = length-set slots 40 (some 0) ∙ length-replicate {A = Option ℕ} 8192 none;
  waiting = λ slot p h. elim (ℕ_discrete 40 slot) [
    | yes e ↦
        let slot_0 : some (some p) ≡ some (some 0) =
          sym h
          ∙ (ap (get_elem? (set slots 40 (some 0))) (sym e)
              ∙ get_elem?-set_self slots 40 (some 0)
                  (omega (arith, length-replicate {A = Option ℕ} 8192 none))) in
        let at : p ≡ 0 = ground (arith, slot_0) in
        record {
          req = record waiting_request { response_package = replicate 4096 0 };
          client = 9;
          is_req = ap (get_elem? under_way.requests) at;
          is_client = refl;
          has_room = length-replicate {A = ℕ} 4096 0;
        }
    | no n ↦ absurd (no_slot 8192 slot p (sym (get_elem?-set_ne slots 40 slot (some 0) n) ∙ h))
  ];
}

abbrev two_replies : List Reply
two_replies = record { id = 40; body = codes "ok" } ∷ record { id = 42; body = codes "late" } ∷ []

replies-IsReply : IsAll IsReply two_replies
unfolding IsAll
replies-IsReply = ((omega arith, omega arith), ((omega arith, omega arith), tt))

abbrev reads : List ℕ
reads = replicate 40 6

enough_reads : length (concat_map reply_bytes two_replies) ≤ length reads
unfolding long_to_8bytes le_bytes
enough_reads = omega arith

serve_provider_answers_all_example :
    (s' : TcpServer) × (server' : EndpointServer) × (serve_provider
        (λ n. pos 9)
        0
        reads
        under_way
        (concat_map reply_bytes two_replies)
        []
      ≡ done (s', [], concat_map (writes under_way) two_replies))
    × IsReady 0 s'
    × (get_elem? s'.endpoint_servers 0 ≡ some server')
    × (server'.inbox.size ≡ 0)
serve_provider_answers_all_example =
    serve_provider_answers_all (λ n. pos 9) 0 reads under_way
      (record endpoint { inbox = record { buf = replicate 4096 0; size = 0 } }) two_replies
      under_way-IsReady refl (length-replicate {A = ℕ} 4096 0) refl replies-IsReply enough_reads
