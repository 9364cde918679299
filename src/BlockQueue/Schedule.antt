-- ===== src/BlockQueue/Schedule.antt =====
-- Any interleaving of producers and consumers: the mutex makes it a sequence of pushes and pulls.
use service_mesh_agent.Base.{
  ℕ, zero, suc, ◌≡◌, refl, ◌∙◌, inl, inr, List, [], ◌∷◌, ◌++◌, append_assoc, Exec, done, ◌>>=◌,
}
use service_mesh_agent.BlockQueue.{BlockQueue, bq_push, bq_pull, Pull, waits, takes}
use service_mesh_agent.BlockQueue.Refine.{contents, IsValid, bq_push_refines, bq_pull_refines}

-- A producer pushes a request, or a consumer runs one round of its pull.
pub data Event (A : Type 0) : Type 0 where
  pushes : A → Event A
  pulls : Event A

-- What the consumers have taken and what the producers were told was taken in, both in order.
pub record Trace (A : Type 0) : Type 0 where
  pub queue : BlockQueue A
  pub taken : List A
  pub accepted : List A

module _ {A : Type 0} where
  abbrev note_pull : Trace A → Pull A → Trace A
  note_pull t waits = t
  note_pull t (takes x bq) = record t { queue = bq; taken = t.taken ++ x ∷ [] }

  abbrev note_push : Trace A → A → ℕ × BlockQueue A → Trace A
  note_push t x (zero, bq) = record t { queue = bq; accepted = t.accepted ++ x ∷ [] }
  note_push t x (suc _, bq) = record t { queue = bq }

  pub step : Trace A → Event A → Exec (Trace A)
  step t (pushes x) = bq_push t.queue x >>= λ r. done (note_push t x r)
  step t pulls = bq_pull t.queue >>= λ p. done (note_pull t p)

  unfoldable pub run : Trace A → List (Event A) → Exec (Trace A)
  unfolding step
  run t [] = done t
  run t (e ∷ es) = step t e >>= λ t'. run t' es

  -- What was in the queue at first and what came in is what went out and what is left, in order.
  pub record InOrder (start : List A) (t : Trace A) : Type 0 where
    pub valid : IsValid t.queue
    pub account : start ++ t.accepted ≡ t.taken ++ contents t.queue

  push-InOrder :
      (start : List A) (t : Trace A) (x : A)
      → InOrder start t
      → (t' : Trace A) × (step t (pushes x) ≡ done t') × InOrder start t'
  unfolding step
  push-InOrder start t x i = elim (bq_push_refines t.queue x i.valid) [
    | inl (_, full) ↦ (t, rw full, i)
    | inr (bq', _, ran, valid, more, _) ↦ (
      record t { queue = bq'; accepted = t.accepted ++ x ∷ [] },
      rw ran,
      record {
        valid = valid;
        account = rw (more, ← append_assoc start t.accepted (x ∷ []), i.account, append_assoc);
      },
    )
  ]

  pull-InOrder :
      (start : List A) (t : Trace A)
      → InOrder start t
      → (t' : Trace A) × (step t pulls ≡ done t') × InOrder start t'
  unfolding step
  pull-InOrder start t i = elim (bq_pull_refines t.queue i.valid) [
    | inl (_, empty) ↦ (t, rw empty, i)
    | inr (x, bq', less, ran, valid, _) ↦ (
      record t { queue = bq'; taken = t.taken ++ x ∷ [] },
      rw ran,
      record { valid = valid; account = i.account ∙ rw (less, append_assoc) },
    )
  ]

  -- Whatever the interleaving of pushes and pulls on a valid queue, no call faults, the queue stays
  -- valid, and the requests leave it in the order in which they were accepted: none is lost, doubled
  -- or overtaken.
  pub run-InOrder :
      (es : List (Event A)) (start : List A) (t : Trace A)
      → InOrder start t
      → (t' : Trace A) × (run t es ≡ done t') × InOrder start t'
  unfolding run
  run-InOrder [] start t i = (t, refl, i)
  run-InOrder (pushes x ∷ es) start t i =
      let (mid, ran, j) = push-InOrder start t x i in
      let (t', rest, k) = run-InOrder es start mid j in (t', rw ran rest, k)
  run-InOrder (pulls ∷ es) start t i =
      let (mid, ran, j) = pull-InOrder start t i in
      let (t', rest, k) = run-InOrder es start mid j in (t', rw ran rest, k)
