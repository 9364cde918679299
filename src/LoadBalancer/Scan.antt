-- ===== src/LoadBalancer/Scan.antt =====
-- The loop of select_endpoint_time_based finds the least cost.
use service_mesh_agent.Base.{
  ℕ, zero, suc, ◌≤◌, ◌<◌, ◌≡◌, refl, ◌≢◌, ◌⊎◌, inl, inr, arith, done, subst, sym, ap, ◌>>=◌,
  Bool-cases,
}
use service_mesh_agent.Base.Int.{ℤ, ltb_ℤ, ◌≤ℤ◌, ◌<ℤ◌, ltb_ℤ→lt, not-ltb_ℤ→le}
use service_mesh_agent.LoadBalancer.{LoadBalancer, estimate_cost, scan}

-- What `scan` leaves: the cheapest of the endpoints below `i` and of `start`.
pub record Best (this : LoadBalancer) (i start : ℕ) (start_val : ℤ) (idx : ℕ) : Type 0 where
  pub value : ℤ
  pub costs : estimate_cost this idx ≡ done value
  pub not_above : idx ≤ start
  pub no_worse : value ≤ℤ start_val
  pub moved : idx ≢ start → value <ℤ start_val
  pub least : (j : ℕ) (c : ℤ) → j < i → estimate_cost this j ≡ done c → value ≤ℤ c
  pub first : (j : ℕ) (c : ℤ) → j < i → idx < j → estimate_cost this j ≡ done c → value <ℤ c

-- An index below `suc i` is below `i`, or its cost is the one computed at `i`.
pub below_or_same :
    (this : LoadBalancer) (j i : ℕ) (c tmp : ℤ)
    → j < suc i
    → estimate_cost this i ≡ done tmp
    → estimate_cost this j ≡ done c
    → (j < i) ⊎ ((j ≡ i) × (c ≡ tmp))
below_or_same this j i c tmp h e q = ground (arith, ap (estimate_cost this) {x = j} {y = i})

Best-take :
    (this : LoadBalancer) (i start : ℕ) (start_val tmp : ℤ) (idx : ℕ)
    → estimate_cost this i ≡ done tmp
    → tmp <ℤ start_val
    → suc i ≤ start
    → Best this i i tmp idx
    → Best this (suc i) start start_val idx
Best-take this i start start_val tmp idx e lt le b = record {
  value = b.value;
  costs = b.costs;
  not_above = omega (arith, b.not_above);
  no_worse = omega (arith, b.no_worse);
  moved = λ _. omega (arith, b.no_worse);
  least = λ j c h q. elim (below_or_same this j i c tmp h e q) [
    | inl below ↦ b.least j c below q
    | inr (_, same) ↦ subst (λ t. b.value ≤ℤ t) (sym same) b.no_worse
  ];
  first = λ j c h k q. elim (below_or_same this j i c tmp h e q) [
    | inl below ↦ b.first j c below k q
    | inr (at, same) ↦ subst (λ t. b.value <ℤ t) (sym same) (b.moved (omega arith))
  ];
}

Best-pass :
    (this : LoadBalancer) (i start : ℕ) (start_val tmp : ℤ) (idx : ℕ)
    → estimate_cost this i ≡ done tmp
    → start_val ≤ℤ tmp
    → suc i ≤ start
    → Best this i start start_val idx
    → Best this (suc i) start start_val idx
Best-pass this i start start_val tmp idx e ge le b = record {
  value = b.value;
  costs = b.costs;
  not_above = b.not_above;
  no_worse = b.no_worse;
  moved = b.moved;
  least = λ j c h q. elim (below_or_same this j i c tmp h e q) [
    | inl below ↦ b.least j c below q
    | inr (_, same) ↦ subst (λ t. b.value ≤ℤ t) (sym same) (omega (arith, b.no_worse))
  ];
  first = λ j c h k q. elim (below_or_same this j i c tmp h e q) [
    | inl below ↦ b.first j c below k q
    | inr (at, same) ↦ subst (λ t. b.value <ℤ t) (sym same) (omega (arith, b.moved (omega arith)))
  ];
}

-- Every endpoint that is looked at has a cost, so the loop ends with the best one.
pub scan-Best :
    (this : LoadBalancer) (i start : ℕ) (start_val : ℤ)
    → ((j : ℕ) → j < i → (c : ℤ) × (estimate_cost this j ≡ done c))
    → estimate_cost this start ≡ done start_val
    → i ≤ start
    → (idx : ℕ) × (scan this i start start_val ≡ done idx) × Best this i start start_val idx
unfolding scan
scan-Best this zero start start_val costs e le = (
  start,
  refl,
  record {
    value = start_val;
    costs = e;
    not_above = omega arith;
    no_worse = omega arith;
    moved = λ ne. absurd (ne refl);
    least = λ j c h q. absurd (omega arith);
    first = λ j c h k q. absurd (omega arith);
  },
)
scan-Best this (suc i) start start_val costs e le =
    let (tmp, f) = costs i (omega arith) in
    elim (Bool-cases (ltb_ℤ tmp start_val)) [
      | inl less ↦
          let (idx, ran, b) =
            scan-Best this i i tmp (λ j h. costs j (omega arith)) f (omega arith) in
          (
            idx,
            rw (f, ◌>>=◌, less) ran,
            Best-take this i start start_val tmp idx f (ltb_ℤ→lt tmp start_val less) le b,
          )
      | inr more ↦
          let (idx, ran, b) =
            scan-Best this i start start_val (λ j h. costs j (omega arith)) e (omega arith) in
          (
            idx,
            rw (f, ◌>>=◌, more) ran,
            Best-pass this i start start_val tmp idx f (not-ltb_ℤ→le tmp start_val more) le b,
          )
    ]
