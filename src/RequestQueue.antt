-- ===== src/RequestQueue.antt =====
-- src/utils/http_req_queue.c and http_req_queue.h: a queue of request pointers in an array, with no
-- lock. The ends are reset once they are past `capacity`, not at it.
pub mod Overrun
mod Tests
use service_mesh_agent.Base.{
  ℕ, ◌+◌, List, [], ◌∷◌, Bool, true, false, ◌&&◌, get_elem?, set, length, ltb, ◌==◌, if◌then◌else◌,
  Option, none, some, Exec, done, fault, ◌>>=◌, ◌>>◌, must, require,
}

-- `http_req_queue_t`
pub record RequestQueue (A : Type 0) : Type 0 where
  pub buffer : List A
  pub capacity : ℕ
  pub head : ℕ
  pub tail : ℕ
  pub generation : ℕ

module _ {A : Type 0} where
  -- `storage` is the block that malloc gives for `default_size` pointers.
  pub init_request_queue : ℕ → List A → RequestQueue A
  init_request_queue default_size storage = record {
    buffer = storage;
    capacity = default_size;
    head = 0;
    tail = 0;
    generation = 0;
  }

  pub test_empty : RequestQueue A → Bool
  test_empty queue = (queue.generation == 0) && (queue.head == queue.tail)

  pub test_full : RequestQueue A → Bool
  test_full queue = (queue.generation == 1) && (queue.head == queue.tail)

  -- The code is 1 for a full queue, which drops the request.
  pub push : RequestQueue A → A → Exec (ℕ × RequestQueue A)
  push queue http_req =
      let past = ltb queue.capacity (queue.tail + 1) in
      if test_full queue
      then done (1, queue)
      else (require (ltb queue.tail (length queue.buffer))
          >> done (
            0,
            record queue {
              buffer = set queue.buffer queue.tail http_req;
              tail = if past then 0 else queue.tail + 1;
              generation = if past then 1 else queue.generation;
            },
          ))

  -- An empty queue gives NULL.
  pub pull : RequestQueue A → Exec (Option A × RequestQueue A)
  pull queue =
      let past = ltb queue.capacity (queue.head + 1) in
      if test_empty queue
      then done (none, queue)
      else (must (get_elem? queue.buffer queue.head) >>= λ req. done (
        some req,
        record queue {
          head = if past then 0 else queue.head + 1;
          generation = if past then 0 else queue.generation;
        },
      ))
