-- ===== src/Consumer/Deliver.antt =====
-- src/consumer_agent.c: what an answer of a provider agent means for the clients, and when it is
-- certain to be passed on.
use service_mesh_agent.Base.{
  ℕ, ◌+◌, ◌%◌, ◌^◌, ◌≤◌, ◌<◌, ◌≡◌, refl, List, [], ◌∷◌, ◌++◌, Bytes, Exec, done, ◌>>=◌, must,
  get_elem?, write, some, none, Option, length, arith, lt→ltb, >>=-assoc,
}
use service_mesh_agent.Base.Int.{ℤ, negsuc}
use service_mesh_agent.Codec.EightBytes.{bytes8_to_long-long_to_8bytes}
use service_mesh_agent.LoadBalancer.{add_remain, finish_endpoint_task_time_based}
use service_mesh_agent.Uv.{Request, uv_write}
use service_mesh_agent.Consumer.State.{
  TcpServer, hash_slot_num, default_response_size, deref, store,
}
use service_mesh_agent.Consumer.Answer.{respond, answer_slot, answer}
use service_mesh_agent.Consumer.Sending.{message}
use service_mesh_agent.Consumer.Reply.{read_id, read_body}

-- An answer: the id of the request and the HTTP response.
pub record Reply : Type 0 where
  pub id : ℕ
  pub body : Bytes

abbrev pub reply_bytes : Reply → Bytes
reply_bytes m = message m.id m.body

-- It fits the buffer of the endpoint; its id is no negative int64_t.
abbrev pub IsReply : Reply → Type 0
IsReply m = (m.id < 2 ^ 63) × (length m.body + 12 ≤ default_response_size)

-- The answer by itself, without its bytes.
unfoldable pub deliver_slot :
    ℕ → ℤ → Bytes → TcpServer → List Request → Option ℕ → Exec (TcpServer × List Request)
unfolding deref
deliver_slot which now body s sent (some p) = do
  req ← deref s p
  lb ← finish_endpoint_task_time_based s.global_lb which req.ts_req_beg now
  filled ← write req.response_package 0 body
  client ← must req.client
  done (
    record (store s p (record req { response_package = filled })) { global_lb = lb },
    sent ++ uv_write client body ∷ [],
  )
deliver_slot which now body s sent none =
    add_remain s.global_lb which (negsuc 0) >>= λ lb. done (record s { global_lb = lb }, sent)

unfoldable pub deliver :
    ℕ → (ℕ → ℤ) → Reply → TcpServer × List Request → Exec (TcpServer × List Request)
deliver which clock m (s, sent) =
    must (get_elem? s.http_req_dict (m.id % hash_slot_num))
    >>= deliver_slot which (clock (length sent)) m.body s sent

answer_slot-deliver_slot :
    (which : ℕ) (now : ℤ) (m : Reply) (rest : Bytes) (s : TcpServer) (sent : List Request)
    (slot : Option ℕ)
    → answer_slot which now (reply_bytes m ++ rest) (length m.body) s sent slot
      ≡ deliver_slot which now m.body s sent slot
unfolding answer_slot deliver_slot respond
answer_slot-deliver_slot which now m rest s sent (some p) =
    rw (read_body m.id m.body rest) (simp (>>=-assoc))
answer_slot-deliver_slot which now m rest s sent none = refl

pub answer-deliver :
    (which : ℕ) (clock : ℕ → ℤ) (m : Reply) (rest : Bytes) (s : TcpServer × List Request)
    → IsReply m
    → answer which clock (reply_bytes m ++ rest) (length m.body) s
      ≡ (deliver which clock m s >>= λ s'. done (reply_bytes m ++ rest, s'))
unfolding answer deliver
answer-deliver which clock m rest (s, sent) ok =
    rw
      (
        read_id m.id m.body rest,
        ◌>>=◌,
        bytes8_to_long-long_to_8bytes m.id (omega (arith, ok.0)),
        lt→ltb m.id (2 ^ 63) ok.0,
      )
      (simp (>>=-assoc, answer_slot-deliver_slot))
