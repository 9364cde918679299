-- ===== src/LoadBalancer/Select.antt =====
-- select_endpoint_time_based: which endpoint gets the next request.
use service_mesh_agent.Base.{
  ℕ, zero, suc, ◌-◌, ◌≤◌, ◌<◌, ◌≡◌, refl, ◌≢◌, ◌∙◌, ◌⊎◌, inl, inr, List, some, arith, set,
  get_elem?, length-set, lt_of_get_elem?, done, fault, get_elem?-set_self, Option-cases,
  get_elem?-set_ne, get_elem?_beyond, get_elem?_in, subst, sym, ◌>>=◌, must,
}
use native.Mathlib.Decide.{dec_lt}
use service_mesh_agent.Base.Int.{ℤ, pos, ◌+ℤ◌, ◌≤ℤ◌, ◌<ℤ◌}
use service_mesh_agent.LoadBalancer.{
  History, LoadBalancer, cost_within, penalty_send_limit, direct_send_limit, estimate_cost,
  add_remain, Selected, select_endpoint_time_based, select_among,
}
use service_mesh_agent.LoadBalancer.Window.{IsValid}
use service_mesh_agent.LoadBalancer.Finish.{IsSound, IsValid-at, AllValid-set}
use service_mesh_agent.LoadBalancer.Scan.{Best, below_or_same, scan-Best}

-- With at most three endpoints each has its limits.
estimate_cost_runs :
    (this : LoadBalancer) (i : ℕ) (h : History)
    → i < 3
    → get_elem? this.history_diff_time_lst i ≡ some h
    → (penalty direct : ℤ) × (get_elem? penalty_send_limit i ≡ some penalty)
      × (get_elem? direct_send_limit i ≡ some direct)
      × (estimate_cost this i ≡ done (cost_within penalty direct h))
unfolding estimate_cost
estimate_cost_runs this i h lt e =
    let (p, pe) = get_elem?_in penalty_send_limit i lt in
    let (d, de) = get_elem?_in direct_send_limit i lt in (p, d, pe, de, rw (e, pe, de))

-- Which endpoint was chosen, and what has changed with the choice.
pub record Chosen (this : LoadBalancer) (now : ℤ) (s : Selected) : Type 0 where
  pub known : s.endpoint < this.num_of_ends
  pub value : ℤ
  pub costs : estimate_cost this s.endpoint ≡ done value
  pub least : (j : ℕ) (c : ℤ) → j < this.num_of_ends → estimate_cost this j ≡ done c → value ≤ℤ c
  pub last_of_equals :
      (j : ℕ) (c : ℤ)
      → j < this.num_of_ends
      → s.endpoint < j
      → estimate_cost this j ≡ done c
      → value <ℤ c
  pub old : History
  pub was : get_elem? this.history_diff_time_lst s.endpoint ≡ some old
  pub is :
      get_elem? s.balancer.history_diff_time_lst s.endpoint
      ≡ some (record old { remain = old.remain +ℤ pos 1 })
  pub others :
      (j : ℕ)
      → j ≢ s.endpoint
      → get_elem? s.balancer.history_diff_time_lst j ≡ get_elem? this.history_diff_time_lst j
  pub stamped : s.ts_req_beg ≡ now
  pub sound : IsSound s.balancer

Best-Chosen :
    (this : LoadBalancer) (now : ℤ) (n idx : ℕ) (val : ℤ) (h : History)
    → IsSound this
    → this.num_of_ends ≡ suc n
    → Best this n n val idx
    → estimate_cost this n ≡ done val
    → get_elem? this.history_diff_time_lst idx ≡ some h
    → Chosen this now (record {
      endpoint = idx;
      balancer = record this {
        history_diff_time_lst =
            set this.history_diff_time_lst idx (record h { remain = h.remain +ℤ pos 1 });
      };
      ts_req_beg = now;
    })
Best-Chosen this now n idx val h s e b en eh = record {
  known = omega (arith, b.not_above);
  value = b.value;
  costs = b.costs;
  least = λ j c lt q. elim (below_or_same this j n c val (omega arith) en q) [
    | inl below ↦ b.least j c below q
    | inr (_, same) ↦ subst (λ t. b.value ≤ℤ t) (sym same) b.no_worse
  ];
  last_of_equals = λ j c lt k q. elim (below_or_same this j n c val (omega arith) en q) [
    | inl below ↦ b.first j c below k q
    | inr (at, same) ↦ subst (λ t. b.value <ℤ t) (sym same) (b.moved (omega arith))
  ];
  old = h;
  was = eh;
  is = get_elem?-set_self lst idx h' (lt_of_get_elem? lst idx eh);
  others = λ j ne. get_elem?-set_ne lst idx j h' (λ q. ne (sym q));
  stamped = refl;
  sound = record {
    counted = length-set lst idx h' ∙ s.counted;
    each = AllValid-set lst idx h' s.each (record {
      full = v.full;
      head_in = v.head_in;
      tail_in = v.tail_in;
      meet = v.meet;
      summed = v.summed;
    });
  };
}
  where
    lst : List History
    lst = this.history_diff_time_lst

    h' : History
    h' = record h { remain = h.remain +ℤ pos 1 }

    v : IsValid h
    v = IsValid-at lst idx s.each eh

select_runs :
    (this : LoadBalancer) (now : ℤ) (n : ℕ)
    → IsSound this
    → this.num_of_ends ≡ suc n
    → n < 3
    → (s : Selected) × (select_among this now (suc n) ≡ done s) × Chosen this now s
unfolding select_among add_remain
select_runs this now n s e lt =
    let costs : (j : ℕ) → j < suc n → (c : ℤ) × (estimate_cost this j ≡ done c) = λ j k.
      let (h, eh) = get_elem?_in this.history_diff_time_lst j (omega (arith, s.counted)) in
      let (p, d, _, _, r) = estimate_cost_runs this j h (omega arith) eh in
      (cost_within p d h, r) in
    let (val, en) = costs n (omega arith) in
    let (idx, ran, b) = scan-Best this n n val (λ j k. costs j (omega arith)) en (omega arith) in
    let (h, eh) =
      get_elem?_in this.history_diff_time_lst idx (omega (arith, s.counted, b.not_above)) in
    (_, rw (en, ◌>>=◌, ran, eh, must), Best-Chosen this now n idx val h s e b en eh)

-- With an endpoint but no limits for the last one, the array of limits is read out of range.
select_beyond :
    (this : LoadBalancer) (now : ℤ) (n : ℕ) → 3 ≤ n → select_among this now (suc n) ≡ fault
unfolding select_among estimate_cost
select_beyond this now n h = elim (Option-cases (get_elem? this.history_diff_time_lst n)) [
  | inl e ↦ rw (e, must, ◌>>=◌)
  | inr (x, e) ↦ rw (e, must, ◌>>=◌, get_elem?_beyond penalty_send_limit n h)
]

ends_cases : (n : ℕ) → (n ≡ 0) ⊎ ((3 < n) ⊎ ((0 < n) × (n ≤ 3)))
ends_cases zero = inl refl
ends_cases (suc n) =
    inr (elim (dec_lt 3 (suc n)) [ yes more ↦ inl more | no few ↦ inr (omega arith, omega arith) ])

-- On a sound load balancer with one to three endpoints a selection succeeds: it returns the
-- endpoint of least cost, the one of the highest index among equals, adds one to its `remain`,
-- stamps the request with the time and changes nothing else. With no endpoint, or with more than
-- the three that have limits, it reads out of range.
pub select_endpoint_lem :
    (this : LoadBalancer) (now : ℤ)
    → IsSound this
    → ((s : Selected) × (0 < this.num_of_ends)
        × (this.num_of_ends ≤ 3)
        × (select_endpoint_time_based this now ≡ done s)
        × Chosen this now s)
      ⊎ (((this.num_of_ends ≡ 0) ⊎ (3 < this.num_of_ends))
          × (select_endpoint_time_based this now ≡ fault))
unfolding select_endpoint_time_based
select_endpoint_lem this now s = elim (ends_cases n) [
  | inl zero_ends ↦ inr (inl zero_ends, rw zero_ends (unfold select_among in refl))
  | inr (inl many) ↦
      let e : n ≡ suc (n - 1) = omega arith in
      inr (
        inr many,
        subst (λ k. select_among this now k ≡ fault) (sym e)
            (select_beyond this now (n - 1) (omega arith)),
      )
  | inr (inr few) ↦
      let e : n ≡ suc (n - 1) = omega arith in
      let (r, ran, c) = select_runs this now (n - 1) s e (omega arith) in
      inl (r, few.0, few.1, subst (λ k. select_among this now k ≡ done r) (sym e) ran, c)
]
  where
    n : ℕ
    n = this.num_of_ends
