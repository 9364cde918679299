-- ===== src/RequestQueue/Tests.antt =====
-- The request queue on small inputs.
use service_mesh_agent.Base.{
  ℕ, ◌≡◌, refl, List, [], ◌∷◌, ◌⊎◌, ◌<◌, ◌≤◌, done, fault, arith, some, none,
}
use service_mesh_agent.RequestQueue.{
  RequestQueue, init_request_queue, push, pull, test_empty, test_full,
}
use service_mesh_agent.RequestQueue.Overrun.{
  Event, pushes, pulls, IsFirstRound, contents, push-IsFirstRound, pull-IsFirstRound, run,
  run_overruns,
}

abbrev half_full : RequestQueue ℕ
half_full = record { buffer = 4 ∷ 5 ∷ 6 ∷ []; capacity = 3; head = 1; tail = 2; generation = 0 }

half_full-IsFirstRound : IsFirstRound half_full
half_full-IsFirstRound = record {
  stored = refl;
  first = refl;
  ordered = omega arith;
  within = omega arith;
}

push-IsFirstRound_example :
    ((queue' : RequestQueue ℕ) × (2 < 3)
      × (push half_full 7 ≡ done (0, queue'))
      × IsFirstRound queue'
      × (contents queue' ≡ 5 ∷ 7 ∷ [])
      × (queue'.tail ≡ 3)
      × (queue'.capacity ≡ 3))
    ⊎ ((◌≡◌ {A = ℕ} 2 3) × (push half_full 7 ≡ fault))
push-IsFirstRound_example = push-IsFirstRound half_full 7 half_full-IsFirstRound

pull-IsFirstRound_example :
    ((contents half_full ≡ []) × (pull half_full ≡ done (none, half_full)))
    ⊎ ((x : ℕ) × (queue' : RequestQueue ℕ) × (contents half_full ≡ x ∷ contents queue')
        × (pull half_full ≡ done (some x, queue'))
        × IsFirstRound queue'
        × (queue'.tail ≡ 2)
        × (queue'.capacity ≡ 3))
pull-IsFirstRound_example = pull-IsFirstRound half_full half_full-IsFirstRound

-- The third slot is free and the queue is drained, yet the second push from here faults.
abbrev drained_twice : List (Event ℕ)
drained_twice = pulls ∷ pushes 1 ∷ pulls ∷ pushes 2 ∷ []

run_overruns_example :
    ((queue' : RequestQueue ℕ) × (4 ≤ 3)
      × (run half_full drained_twice ≡ done queue')
      × IsFirstRound queue')
    ⊎ ((3 < 4) × (run half_full drained_twice ≡ fault))
run_overruns_example = run_overruns drained_twice half_full half_full-IsFirstRound

fresh_run :
    run {A = ℕ} (init_request_queue 1 (0 ∷ [])) (pushes 8 ∷ pulls ∷ [])
    ≡ done (record { buffer = 8 ∷ []; capacity = 1; head = 1; tail = 1; generation = 0 })
unfolding run init_request_queue push pull test_empty test_full
fresh_run = refl
