-- ===== src/BlockQueue/Tests.antt =====
-- The block queue on small inputs.
use service_mesh_agent.Base.{ℕ, ◌≡◌, refl, List, [], ◌∷◌, ◌⊎◌, ◌<◌, done, arith}
use service_mesh_agent.BlockQueue.{
  BlockQueue, bq_push, bq_pull, waits, takes, test_full, test_empty,
}
use service_mesh_agent.BlockQueue.Refine.{contents, IsValid, bq_push_refines, bq_pull_refines}
use service_mesh_agent.BlockQueue.Schedule.{Event, pushes, pulls, Trace, run, InOrder, run-InOrder}

-- 8, then 9, round the end of the array.
abbrev wrapped : BlockQueue ℕ
wrapped = record {
  head = 2;
  tail = 1;
  max_size = 3;
  tail_ahead = 1;
  http_req_array = 9 ∷ 7 ∷ 8 ∷ [];
}

wrapped-IsValid : IsValid wrapped
wrapped-IsValid = record {
  stored = refl;
  head_in = omega arith;
  tail_in = omega arith;
  flag = omega arith;
  same_round = λ h. absurd (omega arith);
  next_round = λ _. omega arith;
}

bq_push_refines_example :
    ((◌≡◌ {A = ℕ} 2 3) × (bq_push wrapped 5 ≡ done (1, wrapped)))
    ⊎ ((bq' : BlockQueue ℕ) × (2 < 3)
        × (bq_push wrapped 5 ≡ done (0, bq'))
        × IsValid bq'
        × (contents bq' ≡ 8 ∷ 9 ∷ 5 ∷ [])
        × (bq'.max_size ≡ 3))
bq_push_refines_example = bq_push_refines wrapped 5 wrapped-IsValid

bq_pull_refines_example :
    ((contents wrapped ≡ []) × (bq_pull wrapped ≡ done waits))
    ⊎ ((x : ℕ) × (bq' : BlockQueue ℕ) × (contents wrapped ≡ x ∷ contents bq')
        × (bq_pull wrapped ≡ done (takes x bq'))
        × IsValid bq'
        × (bq'.max_size ≡ 3))
bq_pull_refines_example = bq_pull_refines wrapped wrapped-IsValid

abbrev started : Trace ℕ
started = record { queue = wrapped; taken = []; accepted = [] }

abbrev events : List (Event ℕ)
events = pushes 5 ∷ pushes 6 ∷ pulls ∷ pulls ∷ pulls ∷ pulls ∷ []

run-events :
    run started events
    ≡ done (record {
      queue = record {
        head = 2;
        tail = 2;
        max_size = 3;
        tail_ahead = 0;
        http_req_array = 9 ∷ 5 ∷ 8 ∷ [];
      };
      taken = 8 ∷ 9 ∷ 5 ∷ [];
      accepted = 5 ∷ [];
    })
unfolding run bq_push bq_pull test_full test_empty
run-events = refl

run-InOrder_example : (t' : Trace ℕ) × (run started events ≡ done t') × InOrder (8 ∷ 9 ∷ []) t'
run-InOrder_example =
    run-InOrder events (8 ∷ 9 ∷ []) started (record { valid = wrapped-IsValid; account = refl })
