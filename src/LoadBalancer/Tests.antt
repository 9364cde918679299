-- ===== src/LoadBalancer/Tests.antt =====
-- The load balancer on small inputs.
use service_mesh_agent.Base.{
  ℕ, ◌≡◌, ◌<◌, ◌≤◌, ◌⊎◌, refl, List, [], ◌∷◌, done, fault, arith, replicate, get_elem?, some,
}
use service_mesh_agent.Base.Int.{ℤ, pos, ◌+ℤ◌, ◌-ℤ◌}
use service_mesh_agent.LoadBalancer.{
  History, LoadBalancer, init_history_time, init_load_balancer, select_endpoint_time_based,
  Selected, finish_endpoint_task_time_based, push_sample, estimate_cost, scan, add_remain,
  select_among,
}
use service_mesh_agent.LoadBalancer.Window.{IsValid}
use service_mesh_agent.LoadBalancer.Finish.{IsSound, Finished, finish_moves_window}
use service_mesh_agent.LoadBalancer.Select.{Chosen, select_endpoint_lem}
use service_mesh_agent.LoadBalancer.Bounds.{FitsWords, AreTimely}
use service_mesh_agent.LoadBalancer.Served.{AreKnown, balancer_serves}
use service_mesh_agent.LoadBalancer.Ledger.{
  Call, selects, finishes, drops, run, remain_counts_requests, RemainAt, returned, count,
}

-- Endpoint 0 has 9 requests out, endpoint 1 has 3.
abbrev busy : LoadBalancer
busy = record {
  num_of_ends = 2;
  history_diff_time_lst =
      record init_history_time { remain = pos 9 }
      ∷ record init_history_time { remain = pos 3 }
      ∷ [];
}

entry-IsValid : (r : ℤ) → IsValid (record init_history_time { remain = r })
unfolding ◌+ℤ◌
entry-IsValid r = record {
  full = refl;
  head_in = omega arith;
  tail_in = omega arith;
  meet = refl;
  summed = refl;
}

busy-IsSound : IsSound busy
busy-IsSound = record {
  counted = refl;
  each = (entry-IsValid (pos 9), (entry-IsValid (pos 3), tt));
}

select_busy :
    select_endpoint_time_based busy (pos 7)
    ≡ done (record {
      endpoint = 1;
      balancer = record busy {
        history_diff_time_lst =
            record init_history_time { remain = pos 9 }
            ∷ record init_history_time { remain = pos 4 }
            ∷ [];
      };
      ts_req_beg = pos 7;
    })
unfolding select_endpoint_time_based estimate_cost scan add_remain select_among ◌+ℤ◌
select_busy = refl

finish_moves_window_example :
    ((this' : LoadBalancer) × (1 < 2)
      × (finish_endpoint_task_time_based busy 1 (pos 10) (pos 25) ≡ done this')
      × Finished busy 1 (pos 25 -ℤ pos 10) this')
    ⊎ ((2 ≤ 1) × (finish_endpoint_task_time_based busy 1 (pos 10) (pos 25) ≡ fault))
finish_moves_window_example = finish_moves_window busy 1 (pos 10) (pos 25) busy-IsSound

select_endpoint_lem_example :
    ((s : Selected) × (0 < 2)
      × (2 ≤ 3)
      × (select_endpoint_time_based busy (pos 7) ≡ done s)
      × Chosen busy (pos 7) s)
    ⊎ (((◌≡◌ {A = ℕ} 2 0) ⊎ (3 < 2)) × (select_endpoint_time_based busy (pos 7) ≡ fault))
select_endpoint_lem_example = select_endpoint_lem busy (pos 7) busy-IsSound

abbrev calls : List Call
calls = selects (pos 7) ∷ finishes 1 (pos 7) (pos 9) ∷ drops 0 ∷ []

-- Endpoint 1 has taken a request that lasted 2; endpoint 0 has lost one.
abbrev after_calls : LoadBalancer
after_calls = record {
  num_of_ends = 2;
  history_diff_time_lst =
      record init_history_time { remain = pos 8 }
      ∷ record {
        diff_time_sum = pos 3150002;
        head = 1;
        tail = 0;
        remain = pos 3;
        diff_time_history = pos 2 ∷ replicate 63 (pos 50000);
      }
      ∷ [];
}

run-calls : run busy calls [] ≡ done (after_calls, 1 ∷ [])
unfolding run select_endpoint_time_based estimate_cost scan add_remain select_among ◌+ℤ◌ ◌-ℤ◌
    finish_endpoint_task_time_based push_sample
run-calls = refl

remain_counts_requests_example :
    (r : ℤ) × RemainAt after_calls 0 r
    × (r +ℤ pos (returned 0 calls) +ℤ pos 0 ≡ pos 9 +ℤ pos (count 0 (1 ∷ [])))
remain_counts_requests_example =
    remain_counts_requests calls busy after_calls [] (1 ∷ []) 0 (pos 9) run-calls
      (record init_history_time { remain = pos 9 }, refl, refl)

balancer_serves_example :
    (this₀ : LoadBalancer) × (this : LoadBalancer) × (chosen : List ℕ) × (r : ℤ)
    × (init_load_balancer 2 ≡ done this₀)
    × (run this₀ calls [] ≡ done (this, chosen))
    × IsSound this
    × RemainAt this 1 r
    × ((h : History) × (get_elem? this.history_diff_time_lst 1 ≡ some h) × FitsWords h)
    × (r +ℤ pos 1 ≡ pos (count 1 chosen))
unfolding AreKnown AreTimely ◌-ℤ◌
balancer_serves_example =
    balancer_serves 2 calls 1 (omega arith) (omega arith) (omega arith, (omega arith, tt))
      (omega arith) (omega arith, tt) (omega arith)
