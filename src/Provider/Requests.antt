-- ===== src/Provider/Requests.antt =====
-- src/provider_agent.c: a whole connection from a consumer agent, which carries POST bodies under
-- request ids, becomes requests to the dubbo server.
use service_mesh_agent.Base.{
  ℕ, suc, ◌+◌, ◌-◌, ◌^◌, ◌≤◌, ◌<◌, ◌≡◌, refl, sym, ◌∙◌, List, [], ◌∷◌, ◌++◌, Bytes, Exec, done,
  ◌>>=◌, must, some, length, take, drop, min, suc, arith, length-append, map, concat_map, >>=-assoc,
  >>=_congr, le→leb, slice_of_append,
}
use service_mesh_agent.Base.Words.{u16}
use service_mesh_agent.Codec.{int_to_four_char, long_to_8bytes, le_bytes}
use service_mesh_agent.Codec.FourBytes.{read_int-int_to_four_char}
use service_mesh_agent.Codec.EightBytes.{bytes8_to_long-long_to_8bytes}
use service_mesh_agent.Framing.{Inbox, receive, drain}
use service_mesh_agent.Framing.Stream.{Handles, IsAll, emits, apply_all-emits}
use service_mesh_agent.Framing.Pump.{pump, read_size, pump_serves_all}
use service_mesh_agent.Tokenizer.Simd.{sse42}
use service_mesh_agent.Tokenizer.Offsets.{IsForm, encode}
use service_mesh_agent.Tokenizer.Lookup.{Param, field_of, IsParams}
use service_mesh_agent.Tokenizer.Request.{request_body}
use service_mesh_agent.Tokenizer.Whole.{header_of, generate_res_in_place_lem}
use service_mesh_agent.Uv.{Request, uv_write, arrived}
use service_mesh_agent.Provider.Relay.{
  TcpRelay, package_size, relay_request, p_alloc_buffer1, p_read_connection_data_http_req,
}

-- A request as the consumer agent means it: an id, and a form of one field or more.
pub record Post : Type 0 where
  pub id : ℕ
  pub first : Param
  pub others : List Param

abbrev pub text_of : Post → Bytes
text_of m = encode (map field_of (m.first ∷ m.others))

-- As it is sent: length, id, form.
abbrev pub post_bytes : Post → Bytes
post_bytes m = int_to_four_char (length (text_of m)) ++ (long_to_8bytes m.id ++ text_of m)

-- The request to the dubbo server.
abbrev pub dubbo_bytes : Post → Bytes
dubbo_bytes m = let body = request_body (m.first ∷ m.others) in header_of (length body) m.id ++ body

-- The message leaves room for a vector in the buffer, the request fits its package.
abbrev pub IsPost : Post → Type 0
IsPost m =
    (m.id < 2 ^ 64)
    × IsForm (map field_of (m.first ∷ m.others))
    × IsParams (m.first ∷ m.others)
    × (length (m.first ∷ m.others) ≤ 15)
    × (length (text_of m) + 28 ≤ package_size)
    × (length (request_body (m.first ∷ m.others)) + 16 ≤ package_size)

length-post_bytes : (m : Post) → length (post_bytes m) ≡ length (text_of m) + 12
unfolding long_to_8bytes le_bytes
length-post_bytes m = omega arith

module _ (fresh : Bytes) (size : length fresh ≡ package_size) (conn : ℕ) where
  handles_post :
      (m : Post) (rest : Bytes) (n : ℕ) (out : List Request)
      → IsPost m
      → n + 12 ≡ length (post_bytes m)
      → length (post_bytes m ++ rest) ≡ package_size
      → relay_request sse42 fresh (some conn) (post_bytes m ++ rest) n out
        ≡ done (post_bytes m ++ rest, out ++ uv_write conn (dubbo_bytes m) ∷ [])
  unfolding relay_request long_to_8bytes le_bytes
  handles_post m rest n out ok len full =
      let text = text_of m in
      let long = length-post_bytes m in
      let same : u16 n ≡ length text = omega (arith, ok.4) in
      let back = bytes8_to_long-long_to_8bytes m.id ok.0 in
      let room : 16 ≤ length rest =
        omega (arith, full, long, length-append (post_bytes m) rest, ok.4) in
      let whole = length-append text rest in
      let made =
        generate_res_in_place_lem sse42 fresh rest m.first m.others m.id ok.1 ok.2 ok.3 room
          (omega (arith, full, long, length-append (post_bytes m) rest, whole))
          (omega (arith, ok.5, size)) in
      let tail = drop (length (request_body (m.first ∷ m.others))) (drop 16 fresh) in
      rw
        (
          le→leb 12 (length (post_bytes m ++ rest)) (omega arith),
          ◌>>=◌,
          back,
          same,
          made,
          must,
          slice_of_append [] (dubbo_bytes m) tail,
        )
        refl

  posts :
      Handles 12 0 package_size
        (relay_request sse42 fresh (some conn))
        post_bytes
        IsPost
        (emits (λ m. uv_write conn (dubbo_bytes m) ∷ []))
  posts = record {
    some_header = omega arith;
    has_header = λ m ok. omega (arith, length-post_bytes m);
    fits = λ m ok. omega (arith, length-post_bytes m, ok.4);
    short = omega arith;
    says_length = λ m ok. (
      length (text_of m),
      read_int-int_to_four_char [] (long_to_8bytes m.id ++ text_of m) (length (text_of m))
          (omega (arith, ok.4)),
      sym (length-post_bytes m),
    );
    handled = handles_post;
  }

-- The read callback of connection 1 as libuv runs it: each read takes some of what the consumer agent
-- has sent, as many bytes as the alloc callback offers at most.
unfoldable pub serve_agent :
    Bytes → List ℕ → TcpRelay → Bytes → List Request → Exec (TcpRelay × Bytes × List Request)
serve_agent fresh [] relay wire sent = done (relay, wire, sent)
serve_agent fresh (k ∷ ks) relay wire sent = do
  let n = min (suc k) (min (p_alloc_buffer1 relay) (length wire))
  r ← p_read_connection_data_http_req sse42 fresh relay (arrived (take n wire)) sent
  serve_agent fresh ks r.0 (drop n wire) r.1

module _ (fresh : Bytes) where
  serve_agent-pump :
      (ks : List ℕ) (relay : TcpRelay) (wire : Bytes) (sent : List Request)
      → relay.max_buffer_size ≡ package_size
      → serve_agent fresh ks relay wire sent ≡ (
          pump 12 0 package_size
            (relay_request sse42 fresh relay.tcp_conn_2)
            ks
            relay.inbox_1
            wire
            sent
          >>= λ r. done (record relay { inbox_1 = r.0 }, r.1, r.2))
  unfolding serve_agent pump p_read_connection_data_http_req p_alloc_buffer1
  serve_agent-pump [] relay wire sent size = refl
  serve_agent-pump (k ∷ ks) relay wire sent size =
      let n = min (suc k) (min (relay.max_buffer_size - relay.inbox_1.size) (length wire)) in
      let same : n ≡ min (suc k) (min (package_size - relay.inbox_1.size) (length wire)) =
        omega arith in
      let m = read_size package_size k relay.inbox_1 wire in
      let got = λ (i : Inbox).
        drain 12 0 (relay_request sse42 fresh relay.tcp_conn_2) (suc i.size) i sent in
      rw (same) (
        >>=-assoc (receive relay.inbox_1 (take m wire)) _ _
        ∙ (>>=_congr (receive relay.inbox_1 (take m wire)) (λ i.
              >>=-assoc (got i) _ _
              ∙ (>>=_congr (got i) (λ r.
                    serve_agent-pump ks (record relay { inbox_1 = r.0 }) (drop m wire) r.1 size)
                  ∙ sym (>>=-assoc (got i) _ _)))
            ∙ sym (>>=-assoc (receive relay.inbox_1 (take m wire)) _ _)))

-- In a build with SSE4.2, however the bytes of the consumer agent are cut into reads, if there are
-- enough of those, each of its messages is sent to the dubbo server as one request, in order, with its
-- id, and the buffer of 4096 bytes of a connected relay, empty at the start, is empty at the end, the
-- rest of the relay as before. Each message must have an id below 2^64 and a form of at most fifteen
-- fields whose URL escapes are whole; the message must leave sixteen bytes of the buffer, and the body
-- of its dubbo request must leave sixteen of a package of 4096 bytes.
pub serve_agent_relays_all :
    (fresh : Bytes) (ks : List ℕ) (relay : TcpRelay) (conn : ℕ) (ms : List Post)
    → length fresh ≡ package_size
    → relay.max_buffer_size ≡ package_size
    → length relay.inbox_1.buf ≡ package_size
    → relay.inbox_1.size ≡ 0
    → relay.tcp_conn_2 ≡ some conn
    → IsAll IsPost ms
    → length (concat_map post_bytes ms) ≤ length ks
    → (i : Inbox) × (serve_agent fresh ks relay (concat_map post_bytes ms) []
        ≡ done (
          record relay { inbox_1 = i },
          [],
          concat_map (λ m. uv_write conn (dubbo_bytes m) ∷ []) ms,
        ))
      × (i.size ≡ 0)
serve_agent_relays_all fresh ks relay conn ms size room full empty to all enough =
    let (i, e, z, f) =
      pump_serves_all (posts fresh size conn) ks relay.inbox_1 ms all full empty enough in
    let written = apply_all-emits (λ m. uv_write conn (dubbo_bytes m) ∷ []) ms [] in
    (
      i,
      serve_agent-pump fresh ks relay (concat_map post_bytes ms) [] room
          ∙ rw (to, e [], written) refl,
      z,
    )
