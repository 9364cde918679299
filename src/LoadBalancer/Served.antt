-- ===== src/LoadBalancer/Served.antt =====
-- src/utils/loadBalancer.c: the load balancer from its start over any run of calls.
use service_mesh_agent.Base.{
  ℕ, zero, suc, ◌≤◌, ◌<◌, ◌^◌, length, ◌≡◌, refl, sym, ap, ◌∙◌, List, [], ◌∷◌, arith, done, ◌>>=◌,
  must, get_elem?, replicate, some, >>=-eq-done, done_injective, inl, inr, le→leb,
}
use service_mesh_agent.Base.Int.{ℤ, pos, negsuc, ◌+ℤ◌, ◌-ℤ◌, int_laws, pos_part, neg_part}
use service_mesh_agent.LoadBalancer.{
  History, LoadBalancer, Selected, max_ends, init_history_time, init_load_balancer, estimate_cost,
  scan, add_remain, select_among, select_endpoint_time_based, push_sample,
  finish_endpoint_task_time_based,
}
use service_mesh_agent.LoadBalancer.Finish.{IsSound, IsValid-at, fresh-IsSound}
use service_mesh_agent.LoadBalancer.Select.{select_endpoint_lem}
use service_mesh_agent.LoadBalancer.Known.{finish-Leaves, add_remain-Leaves}
use service_mesh_agent.LoadBalancer.Bounds.{
  FitsWords, AreTimely, fresh-AllShort, run-AllShort, fits_words,
}
use service_mesh_agent.LoadBalancer.Ledger.{
  Call, selects, finishes, drops, run, count, returned, RemainAt, remain_counts_requests,
}

-- Every call that names an endpoint names one of the `n`.
unfoldable pub AreKnown : ℕ → List Call → Type 0
AreKnown n [] = Unit
AreKnown n (selects now ∷ calls) = AreKnown n calls
AreKnown n (finishes i beg now ∷ calls) = (i < n) × AreKnown n calls
AreKnown n (drops i ∷ calls) = (i < n) × AreKnown n calls

add_remain-size :
    (this this' : LoadBalancer) (i : ℕ) (d : ℤ)
    → add_remain this i d ≡ done this'
    → this'.num_of_ends ≡ this.num_of_ends
unfolding add_remain
add_remain-size this this' i d e =
    let (h, eh, e₁) = >>=-eq-done (must (get_elem? this.history_diff_time_lst i)) _ e in
    ap (λ t. t.num_of_ends) (sym (done_injective e₁))

finish-size :
    (this this' : LoadBalancer) (i : ℕ) (beg now : ℤ)
    → finish_endpoint_task_time_based this i beg now ≡ done this'
    → this'.num_of_ends ≡ this.num_of_ends
unfolding finish_endpoint_task_time_based
finish-size this this' i beg now e =
    let (h, eh, e₁) = >>=-eq-done (must (get_elem? this.history_diff_time_lst i)) _ e in
    let (h', ep, e₂) =
      >>=-eq-done (push_sample (record h { remain = h.remain -ℤ pos 1 }) (now -ℤ beg)) _ e₁ in
    ap (λ t. t.num_of_ends) (sym (done_injective e₂))

among-size :
    (this : LoadBalancer) (now : ℤ) (n : ℕ) (s : Selected)
    → select_among this now n ≡ done s
    → s.balancer.num_of_ends ≡ this.num_of_ends
unfolding select_among
among-size this now zero s e = absurd (cc)
among-size this now (suc n) s e =
    let (val, _, e₁) = >>=-eq-done (estimate_cost this n) _ e in
    let (idx, _, e₂) = >>=-eq-done (scan this n n val) _ e₁ in
    let (this', added, e₃) = >>=-eq-done (add_remain this idx (pos 1)) _ e₂ in
    ap (λ (t : Selected). t.balancer.num_of_ends) (sym (done_injective e₃))
    ∙ add_remain-size this this' idx (pos 1) added

select-size :
    (this : LoadBalancer) (now : ℤ) (s : Selected)
    → select_endpoint_time_based this now ≡ done s
    → s.balancer.num_of_ends ≡ this.num_of_ends
unfolding select_endpoint_time_based
select-size this now s e = among-size this now this.num_of_ends s e

-- A run returns, with a sound balancer of as many endpoints.
abbrev Runs : LoadBalancer → List Call → List ℕ → Type 0
Runs this calls chosen =
    (this' : LoadBalancer) × (chosen' : List ℕ) × (run this calls chosen ≡ done (this', chosen'))
    × IsSound this'

run-IsSound :
    (n : ℕ) (calls : List Call) (this : LoadBalancer) (chosen : List ℕ)
    → 0 < n
    → n ≤ 3
    → IsSound this
    → this.num_of_ends ≡ n
    → AreKnown n calls
    → Runs this calls chosen
unfolding run AreKnown
run-IsSound n [] this chosen lo hi s e all = (this, chosen, refl, s)
run-IsSound n (selects now ∷ calls) this chosen lo hi s e all =
    elim (select_endpoint_lem this now s) [
      | inl (sel, _, _, ran, c) ↦
          let (t, cs, r, s') =
            run-IsSound n calls sel.balancer (sel.endpoint ∷ chosen) lo hi c.sound
              (select-size this now sel ran ∙ e) all in
          (t, cs, rw (ran, ◌>>=◌) r, s')
      | inr (bad, _) ↦
          absurd (elim bad [ inl none_at_all ↦ omega arith | inr too_many ↦ omega arith ])
    ]
run-IsSound n (finishes i beg now ∷ calls) this chosen lo hi s e all =
    let (this', ran, l) = finish-Leaves this i s (omega (arith, all.0, e)) beg now in
    let (t, cs, r, s') =
      run-IsSound n calls this' chosen lo hi l.sound (finish-size this this' i beg now ran ∙ e)
        all.1 in
    (t, cs, rw (ran, ◌>>=◌) r, s')
run-IsSound n (drops i ∷ calls) this chosen lo hi s e all =
    let (this', ran, l) = add_remain-Leaves this i s (omega (arith, all.0, e)) (negsuc 0) in
    let (t, cs, r, s') =
      run-IsSound n calls this' chosen lo hi l.sound
        (add_remain-size this this' i (negsuc 0) ran ∙ e) all.1 in
    (t, cs, rw (ran, ◌>>=◌) r, s')

idle-at : (n i : ℕ) → i < n → get_elem? (replicate n init_history_time) i ≡ some init_history_time
idle-at zero i lt = absurd (omega arith)
idle-at (suc n) zero lt = refl
idle-at (suc n) (suc i) lt = idle-at n i (omega arith)

init_load_balancer_lem :
    (n : ℕ)
    → n ≤ max_ends
    → init_load_balancer n
      ≡ done (record { num_of_ends = n; history_diff_time_lst = replicate n init_history_time })
unfolding init_load_balancer
init_load_balancer_lem n le = rw (le→leb n max_ends le) refl

counts_only : (r : ℤ) (a b : ℕ) → r +ℤ pos a +ℤ pos 0 ≡ pos 0 +ℤ pos b → r +ℤ pos a ≡ pos b
counts_only r a b h = omega (int_laws, ap pos_part h, ap neg_part h)

-- A load balancer that starts with one to three endpoints does not fault in any run of less than
-- 2 ^ 31 selections, finished requests and dropped answers, if these name its endpoints and no request
-- takes more than 2 ^ 55 microseconds: it stays sound, the `remain` of each endpoint is the number of
-- its selections less that of its requests that were finished or dropped, and no integer leaves its C
-- type: `remain` is an int, every sample is at most 2 ^ 55 and their sum at most 2 ^ 61 from zero, so
-- that a sample more or less is within an int64_t.
pub balancer_serves :
    (n : ℕ) (calls : List Call) (i : ℕ)
    → 0 < n
    → n ≤ 3
    → AreKnown n calls
    → length calls < 2 ^ 31
    → AreTimely calls
    → i < n
    → (this₀ : LoadBalancer) × (this : LoadBalancer) × (chosen : List ℕ) × (r : ℤ)
      × (init_load_balancer n ≡ done this₀)
      × (run this₀ calls [] ≡ done (this, chosen))
      × IsSound this
      × RemainAt this i r
      × ((h : History) × (get_elem? this.history_diff_time_lst i ≡ some h) × FitsWords h)
      × (r +ℤ pos (returned i calls) ≡ pos (count i chosen))
balancer_serves n calls i lo hi all few timely lt =
    let this₀ : LoadBalancer = record {
      num_of_ends = n;
      history_diff_time_lst = replicate n init_history_time;
    } in
    let started = init_load_balancer_lem n (omega arith) in
    let (this, chosen, ran, s) = run-IsSound n calls this₀ [] lo hi (fresh-IsSound n) refl all in
    let (short, le) = run-AllShort calls this₀ this [] chosen ran timely (fresh-AllShort n) in
    let (r, at, sum) =
      remain_counts_requests calls this₀ this [] chosen i (pos 0) ran
        (init_history_time, idle-at n i lt, refl) in
    let ledger = counts_only r (returned i calls) (count i chosen) sum in
    let (h, eh, er) = at in
    let fits =
      fits_words calls chosen i this h (IsValid-at this.history_diff_time_lst i s.each eh) eh short
        (ap (λ k. k +ℤ pos (returned i calls)) er ∙ ledger) (omega (arith, le)) few in
    (this₀, this, chosen, r, started, ran, s, at, (h, eh, fits), ledger)
