-- ===== src/LoadBalancer/Ledger.antt =====
-- `remain` as a ledger: over any run of calls it counts the requests that are out.
use service_mesh_agent.Base.{
  ℕ, zero, suc, ◌+◌, ◌≡◌, refl, ◌∙◌, ap, List, [], ◌∷◌, some, arith, get_elem?, Exec, done, ◌>>=◌,
  >>=-eq-done, must, must-eq-done, done_injective, Bool, true, false, Bool-cases, inl, inr, subst,
  ◌==◌, if◌then◌else◌, set, get_elem?-set_self, get_elem?-set_ne, lt_of_get_elem?,
}
use service_mesh_agent.Base.Int.{ℤ, pos, negsuc, ◌+ℤ◌, ◌-ℤ◌, int_laws, +ℤ-zero, pos_part, neg_part}
use service_mesh_agent.LoadBalancer.{
  History, LoadBalancer, add_remain, Selected, push_sample, estimate_cost, scan, select_among,
  select_endpoint_time_based, finish_endpoint_task_time_based,
}

-- The calls of the two agents' callbacks on the shared load balancer, one at a time under the lock:
-- a selection at a time, a finished request (endpoint, start, time), and the bare decrement of the
-- endpoint that c_read_from_provide_agents makes for an answer to an unknown request.
pub data Call : Type 0 where
  selects : ℤ → Call
  finishes : ℕ → ℤ → ℤ → Call
  drops : ℕ → Call

-- The endpoint of each selection is recorded, newest first.
unfoldable pub run : LoadBalancer → List Call → List ℕ → Exec (LoadBalancer × List ℕ)
run this [] chosen = done (this, chosen)
run this (selects now ∷ calls) chosen =
    select_endpoint_time_based this now >>= λ s. run s.balancer calls (s.endpoint ∷ chosen)
run this (finishes i beg now ∷ calls) chosen =
    finish_endpoint_task_time_based this i beg now >>= λ this'. run this' calls chosen
run this (drops i ∷ calls) chosen = add_remain this i (negsuc 0) >>= λ this'. run this' calls chosen

abbrev pub count : ℕ → List ℕ → ℕ
count i [] = 0
count i (j ∷ js) = (if j == i then 1 else 0) + count i js

-- How often a call gives a request of endpoint `i` back.
abbrev pub returned : ℕ → List Call → ℕ
returned i [] = 0
returned i (selects now ∷ calls) = returned i calls
returned i (finishes j beg now ∷ calls) = (if j == i then 1 else 0) + returned i calls
returned i (drops j ∷ calls) = (if j == i then 1 else 0) + returned i calls

abbrev pub RemainAt : LoadBalancer → ℕ → ℤ → Type 0
RemainAt this i r =
    (h : History) × (get_elem? this.history_diff_time_lst i ≡ some h) × (h.remain ≡ r)

-- The entry of `k` is replaced by one whose `remain` differs by `d`.
remain_after :
    (this : LoadBalancer) (k i : ℕ) (d r : ℤ) (h h' : History)
    → get_elem? this.history_diff_time_lst k ≡ some h
    → h'.remain ≡ h.remain +ℤ d
    → RemainAt this i r
    → RemainAt
        (record this { history_diff_time_lst = set this.history_diff_time_lst k h' })
        i
        (if k == i then r +ℤ d else r)
remain_after this k i d r h h' e eh (g, eg, er) = elim (Bool-cases (k == i)) [
  | inl same ↦ rw same (
    h',
    ground (arith, get_elem?-set_self lst k h' (lt_of_get_elem? lst k e)),
    ground (arith, e, eg),
  )
  | inr other ↦ rw other (g, get_elem?-set_ne lst k i h' (ground arith) ∙ eg, er)
]
  where
    lst : List History
    lst = this.history_diff_time_lst

add_remain-remain :
    (this : LoadBalancer) (k i : ℕ) (d r : ℤ) (this' : LoadBalancer)
    → add_remain this k d ≡ done this'
    → RemainAt this i r
    → RemainAt this' i (if k == i then r +ℤ d else r)
unfolding add_remain
add_remain-remain this k i d r this' ran at =
    let (h, e, eq) = >>=-eq-done (must (get_elem? this.history_diff_time_lst k)) _ ran in
    let e' : get_elem? this.history_diff_time_lst k ≡ some h = ground arith in
    let eq' : record this {
      history_diff_time_lst =
          set this.history_diff_time_lst k (record h { remain = h.remain +ℤ d });
    }
        ≡ this' =
      ground arith in
    subst (λ t. RemainAt t i (if k == i then r +ℤ d else r)) eq'
      (remain_after this k i d r h (record h { remain = h.remain +ℤ d }) e' refl at)

push_sample-remain : (h h' : History) (v : ℤ) → push_sample h v ≡ done h' → h'.remain ≡ h.remain
unfolding push_sample
push_sample-remain h h' v ran = ground arith

minus_one : (r : ℤ) → r -ℤ pos 1 ≡ r +ℤ negsuc 0
minus_one r = omega int_laws

finish-remain :
    (this : LoadBalancer) (k i : ℕ) (beg now r : ℤ) (this' : LoadBalancer)
    → finish_endpoint_task_time_based this k beg now ≡ done this'
    → RemainAt this i r
    → RemainAt this' i (if k == i then r +ℤ negsuc 0 else r)
unfolding finish_endpoint_task_time_based
finish-remain this k i beg now r this' ran at =
    let (h, got, ran₁) = >>=-eq-done (must (get_elem? this.history_diff_time_lst k)) _ ran in
    let (h', pushed, ran₂) =
      >>=-eq-done (push_sample (record h { remain = h.remain -ℤ pos 1 }) (now -ℤ beg)) _ ran₁ in
    subst (λ t. RemainAt t i (if k == i then r +ℤ negsuc 0 else r)) (done_injective ran₂)
      (remain_after this k i (negsuc 0) r h h'
        (must-eq-done (get_elem? this.history_diff_time_lst k) got)
        (push_sample-remain (record h { remain = h.remain -ℤ pos 1 }) h' (now -ℤ beg) pushed
          ∙ minus_one h.remain)
        at)

select_among-remain :
    (this : LoadBalancer) (n i : ℕ) (now r : ℤ) (s : Selected)
    → select_among this now n ≡ done s
    → RemainAt this i r
    → RemainAt s.balancer i (if s.endpoint == i then r +ℤ pos 1 else r)
unfolding select_among
select_among-remain this zero i now r s ran at = absurd (cc)
select_among-remain this (suc n) i now r s ran at =
    let (val, _, ran₁) = >>=-eq-done (estimate_cost this n) _ ran in
    let (idx, _, ran₂) = >>=-eq-done (scan this n n val) _ ran₁ in
    let (this', added, ran₃) = >>=-eq-done (add_remain this idx (pos 1)) _ ran₂ in
    subst (λ (t : Selected). RemainAt t.balancer i (if t.endpoint == i then r +ℤ pos 1 else r))
      (done_injective ran₃) (add_remain-remain this idx i (pos 1) r this' added at)

select-remain :
    (this : LoadBalancer) (i : ℕ) (now r : ℤ) (s : Selected)
    → select_endpoint_time_based this now ≡ done s
    → RemainAt this i r
    → RemainAt s.balancer i (if s.endpoint == i then r +ℤ pos 1 else r)
unfolding select_endpoint_time_based
select-remain this i now r s ran at = select_among-remain this this.num_of_ends i now r s ran at

given_back :
    (r r' : ℤ) (a b n : ℕ) (t : Bool)
    → r' +ℤ pos n +ℤ pos a ≡ (if t then r +ℤ negsuc 0 else r) +ℤ pos b
    → r' +ℤ pos ((if t then 1 else 0) + n) +ℤ pos a ≡ r +ℤ pos b
given_back r r' a b n true h = omega (int_laws, ap pos_part h, ap neg_part h)
given_back r r' a b n false h = ground (arith, h)

taken_out :
    (r r' : ℤ) (a b n : ℕ) (t : Bool)
    → r' +ℤ pos n +ℤ pos ((if t then 1 else 0) + a) ≡ (if t then r +ℤ pos 1 else r) +ℤ pos b
    → r' +ℤ pos n +ℤ pos a ≡ r +ℤ pos b
taken_out r r' a b n true h = omega (int_laws, ap pos_part h, ap neg_part h)
taken_out r r' a b n false h = ground (arith, h)

-- Over every run of calls that ends without a fault, the `remain` of an endpoint is what it was,
-- plus the selections of that endpoint, less the requests of it that were finished or dropped.
pub remain_counts_requests :
    (calls : List Call) (this this' : LoadBalancer) (chosen chosen' : List ℕ) (i : ℕ) (r : ℤ)
    → run this calls chosen ≡ done (this', chosen')
    → RemainAt this i r
    → (r' : ℤ) × RemainAt this' i r'
      × (r' +ℤ pos (returned i calls) +ℤ pos (count i chosen) ≡ r +ℤ pos (count i chosen'))
unfolding run
remain_counts_requests [] this this' chosen chosen' i r ran at =
    let same : chosen ≡ chosen' = ground arith in
    (r, ground arith, rw +ℤ-zero (ap (λ (c : List ℕ). r +ℤ pos (count i c)) same))
remain_counts_requests (selects now ∷ calls) this this' chosen chosen' i r ran at =
    let (s, sel, rest) = >>=-eq-done (select_endpoint_time_based this now) _ ran in
    let (r', at', sum) =
      remain_counts_requests calls s.balancer this' (s.endpoint ∷ chosen) chosen' i _ rest
        (select-remain this i now r s sel at) in
    (
      r',
      at',
      taken_out r r' (count i chosen) (count i chosen') (returned i calls) (s.endpoint == i) sum,
    )
remain_counts_requests (finishes k beg now ∷ calls) this this' chosen chosen' i r ran at =
    let (mid, fin, rest) = >>=-eq-done (finish_endpoint_task_time_based this k beg now) _ ran in
    let (r', at', sum) =
      remain_counts_requests calls mid this' chosen chosen' i _ rest
        (finish-remain this k i beg now r mid fin at) in
    (r', at', given_back r r' (count i chosen) (count i chosen') (returned i calls) (k == i) sum)
remain_counts_requests (drops k ∷ calls) this this' chosen chosen' i r ran at =
    let (mid, dropped, rest) = >>=-eq-done (add_remain this k (negsuc 0)) _ ran in
    let (r', at', sum) =
      remain_counts_requests calls mid this' chosen chosen' i _ rest
        (add_remain-remain this k i (negsuc 0) r mid dropped at) in
    (r', at', given_back r r' (count i chosen) (count i chosen') (returned i calls) (k == i) sum)
