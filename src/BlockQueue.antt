-- ===== src/BlockQueue.antt =====
-- src/utils/blockQueue.c and blockQueue.h: a bounded queue of request pointers over a circular array.
-- The mutex makes each push, and each round of a pull between two waits, one step; a pull that finds
-- the queue empty waits on the condition and tests again when it wakes.
pub mod Refine
pub mod Schedule
mod Tests
use service_mesh_agent.Base.{
  ℕ, ◌+◌, List, [], ◌∷◌, ◌++◌, Bool, true, false, ◌&&◌, get_elem?, set, length, ltb, leb, ◌==◌,
  if◌then◌else◌, not, Exec, done, fault, ◌>>=◌, ◌>>◌, must, require,
}

-- `blockQueue`, without the mutex and the condition. The elements are the pointers.
pub record BlockQueue (A : Type 0) : Type 0 where
  pub head : ℕ
  pub tail : ℕ
  pub max_size : ℕ
  pub tail_ahead : ℕ
  pub http_req_array : List A

-- One round of bq_pull under the mutex: it goes to wait, or it takes a request.
pub data Pull (A : Type 0) : Type 0 where
  waits : Pull A
  takes : A → BlockQueue A → Pull A

module _ {A : Type 0} where
  -- `storage` is the block that malloc gives for `size` pointers.
  pub init_block_queue : ℕ → List A → BlockQueue A
  init_block_queue size storage = record {
    head = 0;
    tail = 0;
    max_size = size;
    tail_ahead = 0;
    http_req_array = storage;
  }

  pub test_full : BlockQueue A → Bool
  test_full bq = (bq.head == bq.tail) && (bq.tail_ahead == 1)

  pub test_empty : BlockQueue A → Bool
  test_empty bq = (bq.head == bq.tail) && (bq.tail_ahead == 0)

  -- Is the code that bq_push returns with (1 for a full queue, where the request is dropped).
  pub bq_push : BlockQueue A → A → Exec (ℕ × BlockQueue A)
  bq_push bq http_req =
      let wraps = bq.tail + 1 == bq.max_size in
      if test_full bq
      then done (1, bq)
      else (require (ltb bq.tail (length bq.http_req_array))
          >> done (
            0,
            record bq {
              http_req_array = set bq.http_req_array bq.tail http_req;
              tail = if wraps then 0 else bq.tail + 1;
              tail_ahead = if wraps then 1 else bq.tail_ahead;
            },
          ))

  pub bq_pull : BlockQueue A → Exec (Pull A)
  bq_pull bq =
      let wraps = bq.head + 1 == bq.max_size in
      if test_empty bq
      then done waits
      else (must (get_elem? bq.http_req_array bq.head) >>= λ req. done (
          takes req (record bq {
            head = if wraps then 0 else bq.head + 1;
            tail_ahead = if wraps then 0 else bq.tail_ahead;
          })))
