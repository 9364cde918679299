-- ===== src/RequestQueue/Overrun.antt =====
-- The queue is first in, first out for its first `capacity` pushes, and then writes behind its array.
use service_mesh_agent.Base.{
  ℕ, suc, ◌+◌, ◌-◌, ◌≤◌, ◌<◌, ◌≡◌, refl, ap, ◌∙◌, ◌⊎◌, inl, inr, List, [], ◌∷◌, ◌++◌, some, none,
  arith, length, take, drop, set, length-set, Exec, done, fault, take-drop-set, take-drop_first,
  get_elem?_in, ◌>>=◌,
}
use native.Mathlib.Decide.{dec_lt, ℕ_discrete}
use service_mesh_agent.RequestQueue.{RequestQueue, push, pull, test_empty, test_full}

-- A producer pushes a request, or a consumer pulls.
pub data Event (A : Type 0) : Type 0 where
  pushes : A → Event A
  pulls : Event A

module _ {A : Type 0} where
  -- No end has been reset yet.
  pub record IsFirstRound (queue : RequestQueue A) : Type 0 where
    pub stored : length queue.buffer ≡ queue.capacity
    pub first : queue.generation ≡ 0
    pub ordered : queue.head ≤ queue.tail
    pub within : queue.tail ≤ queue.capacity

  abbrev pub contents : RequestQueue A → List A
  contents queue = take (queue.tail - queue.head) (drop queue.head queue.buffer)

  -- In the first round a push never finds the queue full. While fewer than `capacity` requests have
  -- been pushed it takes the request behind the others; after that it writes behind the array, also
  -- where the queue is empty.
  pub push-IsFirstRound :
      (queue : RequestQueue A) (x : A)
      → IsFirstRound queue
      → ((queue' : RequestQueue A) × (queue.tail < queue.capacity)
          × (push queue x ≡ done (0, queue'))
          × IsFirstRound queue'
          × (contents queue' ≡ contents queue ++ x ∷ [])
          × (queue'.tail ≡ queue.tail + 1)
          × (queue'.capacity ≡ queue.capacity))
        ⊎ ((queue.tail ≡ queue.capacity) × (push queue x ≡ fault))
  unfolding push test_full
  push-IsFirstRound queue x v = elim (ℕ_discrete queue.tail queue.capacity) [
    | yes at_end ↦ inr (at_end, ground (arith, v))
    | no inside ↦
        let lt : queue.tail < queue.capacity = omega (arith, v.within) in
        inl (
          record queue { buffer = set queue.buffer queue.tail x; tail = queue.tail + 1 },
          lt,
          ground (arith, v),
          record {
            stored = length-set queue.buffer queue.tail x ∙ v.stored;
            first = v.first;
            ordered = omega arith;
            within = omega arith;
          },
          grown lt,
          refl,
          refl,
        )
  ]
    where
      grown :
          queue.tail < queue.capacity
          → take (queue.tail + 1 - queue.head) (drop queue.head (set queue.buffer queue.tail x))
            ≡ contents queue ++ x ∷ []
      grown lt =
          let e : queue.tail + 1 - queue.head ≡ suc (queue.tail - queue.head) = omega arith in
          rw e
            (take-drop-set queue.buffer queue.head queue.tail x v.ordered (omega (arith, v.stored)))

  -- In the first round a pull gives NULL exactly when no request is left, and otherwise the oldest.
  pub pull-IsFirstRound :
      (queue : RequestQueue A)
      → IsFirstRound queue
      → ((contents queue ≡ []) × (pull queue ≡ done (none, queue)))
        ⊎ ((x : A) × (queue' : RequestQueue A) × (contents queue ≡ x ∷ contents queue')
            × (pull queue ≡ done (some x, queue'))
            × IsFirstRound queue'
            × (queue'.tail ≡ queue.tail)
            × (queue'.capacity ≡ queue.capacity))
  unfolding pull test_empty
  pull-IsFirstRound queue v = elim (dec_lt queue.head queue.tail) [
    | yes lt ↦
        let (x, e) = get_elem?_in queue.buffer queue.head (omega (arith, v.stored)) in
        let first = take-drop_first queue.buffer queue.head queue.tail lt e in
        inr (
          x,
          record queue { head = queue.head + 1 },
          first,
          ground (arith, v, e),
          record { stored = v.stored; first = v.first; ordered = omega arith; within = v.within },
          refl,
          refl,
        )
    | no ge ↦
        let e : queue.tail - queue.head ≡ 0 = omega (arith, v.ordered) in
        inl (ap (λ k. take k (drop queue.head queue.buffer)) e, ground (arith, v))
  ]

  -- How many requests a schedule pushes.
  abbrev pub pushed : List (Event A) → ℕ
  pushed [] = 0
  pushed (pushes x ∷ es) = suc (pushed es)
  pushed (pulls ∷ es) = pushed es

  unfoldable pub run : RequestQueue A → List (Event A) → Exec (RequestQueue A)
  run queue [] = done queue
  run queue (pushes x ∷ es) = push queue x >>= λ r. run r.1 es
  run queue (pulls ∷ es) = pull queue >>= λ r. run r.1 es

  -- From a queue in its first round, a schedule of pushes and pulls that pushes more requests than
  -- the array has slots left behind `tail` always ends in a write out of range, however many requests
  -- were pulled in between; with no more pushes than that it always ends well.
  pub run_overruns :
      (es : List (Event A)) (queue : RequestQueue A)
      → IsFirstRound queue
      → ((queue' : RequestQueue A) × (queue.tail + pushed es ≤ queue.capacity)
          × (run queue es ≡ done queue')
          × IsFirstRound queue')
        ⊎ ((queue.capacity < queue.tail + pushed es) × (run queue es ≡ fault))
  unfolding run
  run_overruns [] queue v = inl (queue, omega (arith, v.within), refl, v)
  run_overruns (pushes x ∷ es) queue v = elim (push-IsFirstRound queue x v) [
    | inr (at_end, ran) ↦ inr (omega arith, rw ran)
    | inl (mid, lt, ran, w, _, t, c) ↦ elim (run_overruns es mid w) [
      | inl (last, fits, r, z) ↦ inl (last, omega arith, rw ran r, z)
      | inr (over, r) ↦ inr (omega arith, rw ran r)
    ]
  ]
  run_overruns (pulls ∷ es) queue v = elim (pull-IsFirstRound queue v) [
    | inl (_, ran) ↦ rw (ran, ◌>>=◌) (run_overruns es queue v)
    | inr (x, mid, _, ran, w, t, c) ↦ elim (run_overruns es mid w) [
      | inl (last, fits, r, z) ↦ inl (last, omega arith, rw ran r, z)
      | inr (over, r) ↦ inr (omega arith, rw ran r)
    ]
  ]
