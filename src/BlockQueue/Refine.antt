-- ===== src/BlockQueue/Refine.antt =====
-- The circular array as the list of the requests that it holds, oldest first.
use service_mesh_agent.Base.{
  ℕ, suc, ◌+◌, ◌-◌, ◌≤◌, ◌<◌, ◌≡◌, refl, ap, ◌∙◌, ◌⊎◌, inl, inr, List, [], ◌∷◌, ◌++◌, true, false,
  some, arith, length, take, drop, set, get_elem?, length-append, length-take, length-drop,
  length-set, done, ◌==◌, if◌then◌else◌, Bool-cases, take-set_next, drop-set_before, drop_at,
  take_full, drop_full, take-drop-set, take_one, length_zero, get_elem?_in, append_assoc,
  append-nil, must, require, ◌>>=◌, lt→ltb,
}
use service_mesh_agent.BlockQueue.{
  BlockQueue, init_block_queue, test_full, test_empty, bq_push, bq_pull, waits, takes,
}

module _ {A : Type 0} where
  abbrev pub contents : BlockQueue A → List A
  contents bq =
      if bq.tail_ahead == 0
      then take (bq.tail - bq.head) (drop bq.head bq.http_req_array)
      else drop bq.head bq.http_req_array ++ take bq.tail bq.http_req_array

  -- Both ends lie in the array; the tail is behind the head, or one round ahead of it.
  pub record IsValid (bq : BlockQueue A) : Type 0 where
    pub stored : length bq.http_req_array ≡ bq.max_size
    pub head_in : bq.head < bq.max_size
    pub tail_in : bq.tail < bq.max_size
    pub flag : bq.tail_ahead ≤ 1
    pub same_round : bq.tail_ahead ≡ 0 → bq.head ≤ bq.tail
    pub next_round : bq.tail_ahead ≡ 1 → bq.tail ≤ bq.head

  pub length-contents :
      (bq : BlockQueue A)
      → IsValid bq
      → length (contents bq)
        ≡ (if bq.tail_ahead == 0 then bq.tail - bq.head else bq.max_size - bq.head + bq.tail)
  length-contents bq v = ground (
    arith,
    length-take (bq.tail - bq.head) (drop bq.head bq.http_req_array),
    length-drop bq.head bq.http_req_array,
    length-append (drop bq.head bq.http_req_array) (take bq.tail bq.http_req_array),
    length-take bq.tail bq.http_req_array,
  )

  full_lem :
      (bq : BlockQueue A)
      → IsValid bq
      → (test_full bq ≡ true → length (contents bq) ≡ bq.max_size)
        × (test_full bq ≡ false → length (contents bq) < bq.max_size)
  unfolding test_full
  full_lem bq v =
      (λ t. ground (arith, length-contents bq v), λ t. ground (arith, length-contents bq v))

  empty_lem : (bq : BlockQueue A) → IsValid bq → test_empty bq ≡ true → length (contents bq) ≡ 0
  unfolding test_empty
  empty_lem bq v t = ground (arith, length-contents bq v)

  -- What a push leaves where there is room.
  abbrev pushed : BlockQueue A → A → BlockQueue A
  pushed bq x = record bq {
    http_req_array = set bq.http_req_array bq.tail x;
    tail = if bq.tail + 1 == bq.max_size then 0 else bq.tail + 1;
    tail_ahead = if bq.tail + 1 == bq.max_size then 1 else bq.tail_ahead;
  }

  pushed-IsValid :
      (bq : BlockQueue A) (x : A) → IsValid bq → test_full bq ≡ false → IsValid (pushed bq x)
  unfolding test_full
  pushed-IsValid bq x v t = record {
    stored = length-set bq.http_req_array bq.tail x ∙ v.stored;
    head_in = v.head_in;
    tail_in = ground arith;
    flag = ground arith;
    same_round = ground arith;
    next_round = ground arith;
  }

  contents-pushed :
      (bq : BlockQueue A) (x : A)
      → IsValid bq
      → test_full bq ≡ false
      → contents (pushed bq x) ≡ contents bq ++ x ∷ []
  unfolding test_full
  contents-pushed bq x v t = ground (
    arith,
    take-drop-set xs bq.head bq.tail x,
    take_full (suc (bq.tail - bq.head)) (drop bq.head (set xs bq.tail x)),
    length-drop bq.head (set xs bq.tail x),
    length-set xs bq.tail x,
    append-nil (drop bq.head (set xs bq.tail x)),
    drop-set_before xs bq.tail bq.head x,
    take-set_next xs bq.tail x,
    append_assoc (drop bq.head xs) (take bq.tail xs) (x ∷ []),
    ap (λ k. take k (drop bq.head (set xs bq.tail x))) {x = suc (bq.tail - bq.head)}
        {y = bq.tail + 1 - bq.head},
    ap (λ k. take k (set xs bq.tail x)) {x = suc bq.tail} {y = bq.tail + 1},
  )
    where
      xs : List A
      xs = bq.http_req_array

  -- What a pull leaves of a queue that is not empty.
  abbrev pulled : BlockQueue A → BlockQueue A
  pulled bq = record bq {
    head = if bq.head + 1 == bq.max_size then 0 else bq.head + 1;
    tail_ahead = if bq.head + 1 == bq.max_size then 0 else bq.tail_ahead;
  }

  pulled-IsValid : (bq : BlockQueue A) → IsValid bq → test_empty bq ≡ false → IsValid (pulled bq)
  unfolding test_empty
  pulled-IsValid bq v t = record {
    stored = v.stored;
    head_in = ground arith;
    tail_in = v.tail_in;
    flag = ground arith;
    same_round = ground arith;
    next_round = ground arith;
  }

  contents-pulled :
      (bq : BlockQueue A) (x : A)
      → IsValid bq
      → test_empty bq ≡ false
      → get_elem? bq.http_req_array bq.head ≡ some x
      → contents bq ≡ x ∷ contents (pulled bq)
  unfolding test_empty
  contents-pulled bq x v t e = ground (
    arith,
    drop_at xs bq.head e,
    take_one (bq.tail - bq.head) x (drop (suc bq.head) xs),
    drop_full (suc bq.head) xs,
    ap (λ k. drop k xs) {x = suc bq.head} {y = bq.head + 1},
    ap (λ k. take k (drop (suc bq.head) xs)) {x = bq.tail - bq.head - 1}
        {y = bq.tail - (bq.head + 1)},
    ap (λ k. take k xs) {x = bq.tail} {y = bq.tail - 0},
  )
    where
      xs : List A
      xs = bq.http_req_array

  -- A push on a valid queue never faults: a full queue refuses the request and stays as it is, any
  -- other takes it behind the requests that it holds. The queue is full at `max_size` requests.
  pub bq_push_refines :
      (bq : BlockQueue A) (x : A)
      → IsValid bq
      → ((length (contents bq) ≡ bq.max_size) × (bq_push bq x ≡ done (1, bq)))
        ⊎ ((bq' : BlockQueue A) × (length (contents bq) < bq.max_size)
            × (bq_push bq x ≡ done (0, bq'))
            × IsValid bq'
            × (contents bq' ≡ contents bq ++ x ∷ [])
            × (bq'.max_size ≡ bq.max_size))
  unfolding bq_push
  bq_push_refines bq x v = elim (Bool-cases (test_full bq)) [
    | inl full ↦ inl ((full_lem bq v).0 full, rw full)
    | inr room ↦ inr (
      pushed bq x,
      (full_lem bq v).1 room,
      rw (
        room,
        lt→ltb bq.tail (length bq.http_req_array) (omega (arith, v.stored, v.tail_in)),
        require,
        ◌>>=◌,
      ),
      pushed-IsValid bq x v room,
      contents-pushed bq x v room,
      refl,
    )
  ]

  -- A pull on a valid queue never faults: it waits exactly when the queue holds no request, and
  -- otherwise takes the oldest and leaves the rest.
  pub bq_pull_refines :
      (bq : BlockQueue A)
      → IsValid bq
      → ((contents bq ≡ []) × (bq_pull bq ≡ done waits))
        ⊎ ((x : A) × (bq' : BlockQueue A) × (contents bq ≡ x ∷ contents bq')
            × (bq_pull bq ≡ done (takes x bq'))
            × IsValid bq'
            × (bq'.max_size ≡ bq.max_size))
  unfolding bq_pull
  bq_pull_refines bq v = elim (Bool-cases (test_empty bq)) [
    | inl empty ↦ inl (length_zero (contents bq) (empty_lem bq v empty), rw empty)
    | inr some_left ↦
        let (x, e) = get_elem?_in bq.http_req_array bq.head (omega (arith, v.stored, v.head_in)) in
        inr (
          x,
          pulled bq,
          contents-pulled bq x v some_left e,
          rw (some_left, e, must, ◌>>=◌),
          pulled-IsValid bq v some_left,
          refl,
        )
  ]

  -- A new queue over storage for `size` pointers is valid and empty.
  pub init-IsValid :
      (size : ℕ) (storage : List A)
      → 0 < size
      → length storage ≡ size
      → IsValid (init_block_queue size storage) × (contents (init_block_queue size storage) ≡ [])
  unfolding init_block_queue
  init-IsValid size storage pos e = (
    record {
      stored = e;
      head_in = pos;
      tail_in = pos;
      flag = omega arith;
      same_round = λ _. omega arith;
      next_round = λ h. absurd (omega arith);
    },
    refl,
  )
