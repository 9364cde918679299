-- ===== src/Consumer/Reply.antt =====
-- src/consumer_agent.c: what c_read_from_provide_agents does with one whole answer.
use service_mesh_agent.Base.{
  ℕ, ◌≡◌, refl, ◌++◌, Bytes, done, length, drop, arith, slice, le→leb, slice_of_append,
}
use service_mesh_agent.Codec.{int_to_four_char, long_to_8bytes, le_bytes}
use service_mesh_agent.LoadBalancer.{LoadBalancer}
use service_mesh_agent.Consumer.State.{HttpReq, TcpServer, store}
use service_mesh_agent.Consumer.Sending.{message}

-- The state behind an answer: the balancer is told, the package of the request holds the answer.
abbrev pub answered : TcpServer → ℕ → HttpReq → Bytes → LoadBalancer → TcpServer
answered s p req body lb =
    record (store s p
      (record req { response_package = body ++ drop (length body) req.response_package })) {
        global_lb = lb;
      }

-- The parts of an answer.
pub read_id :
    (id : ℕ) (body rest : Bytes) → slice (message id body ++ rest) 4 8 ≡ done (long_to_8bytes id)
unfolding long_to_8bytes le_bytes
read_id id body rest = rw (le→leb 12 (length (message id body ++ rest)) (omega arith)) refl

pub read_body :
    (id : ℕ) (body rest : Bytes) → slice (message id body ++ rest) 12 (length body) ≡ done body
unfolding long_to_8bytes le_bytes
read_body id body rest =
    slice_of_append (int_to_four_char (length body) ++ long_to_8bytes id) body rest
