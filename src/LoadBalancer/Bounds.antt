-- ===== src/LoadBalancer/Bounds.antt =====
-- src/utils/loadBalancer.h: over a run of calls the integers of the load balancer stay within their C
-- types, an int for `remain` and int64_t for the samples and their sum.
use service_mesh_agent.Base.{
  ℕ, zero, suc, ◌+◌, ◌*◌, ◌^◌, ◌%◌, ◌≤◌, ◌<◌, ◌≡◌, ap, List, [], ◌∷◌, some, arith, get_elem?, done,
  >>=-eq-done, must, must-eq-done, require, done_injective, subst, set, length, replicate, ltb,
  ◌==◌, Bool, true, false, if◌then◌else◌,
}
use service_mesh_agent.Base.Int.{
  ℤ, pos, negsuc, ◌+ℤ◌, ◌-ℤ◌, int_laws, parts_lem, pos_part, neg_part,
}
use service_mesh_agent.LoadBalancer.{
  History, LoadBalancer, Selected, history_window_size, init_history_time, estimate_cost, scan,
  add_remain, select_among, select_endpoint_time_based, push_sample,
  finish_endpoint_task_time_based,
}
use service_mesh_agent.LoadBalancer.Window.{IsValid, total}
use service_mesh_agent.LoadBalancer.Ledger.{Call, selects, finishes, drops, run, count, returned}

-- A time of at most 2 ^ 55 microseconds, in either direction.
abbrev pub IsShort : ℤ → Type 0
IsShort x = pos_part x + neg_part x ≤ 2 ^ 55

unfoldable pub AreShort : List ℤ → Type 0
AreShort [] = Unit
AreShort (x ∷ xs) = IsShort x × AreShort xs

unfoldable pub AllShort : List History → Type 0
unfolding AreShort
AllShort [] = Unit
AllShort (h ∷ hs) = AreShort h.diff_time_history × AllShort hs

-- The samples of the finished requests of a run.
unfoldable pub AreTimely : List Call → Type 0
AreTimely [] = Unit
AreTimely (selects now ∷ calls) = AreTimely calls
AreTimely (finishes i beg now ∷ calls) = IsShort (now -ℤ beg) × AreTimely calls
AreTimely (drops i ∷ calls) = AreTimely calls

-- The values that C stores for an endpoint. The sum of the 64 samples leaves room for one sample more.
pub record FitsWords (h : History) : Type 0 where
  pub remain : pos_part h.remain + neg_part h.remain < 2 ^ 31
  pub samples : AreShort h.diff_time_history
  pub sum : pos_part h.diff_time_sum + neg_part h.diff_time_sum ≤ 2 ^ 61

sum_bound :
    (x t : ℤ) (a b : ℕ)
    → pos_part x + neg_part x ≤ a
    → pos_part t + neg_part t ≤ b
    → pos_part (x +ℤ t) + neg_part (x +ℤ t) ≤ a + b
sum_bound x t a b h k = omega (int_laws, parts_lem (x +ℤ t))

total_bound :
    (xs : List ℤ) → AreShort xs → pos_part (total xs) + neg_part (total xs) ≤ 2 ^ 55 * length xs
unfolding AreShort
total_bound [] all = omega arith
total_bound (x ∷ xs) all =
    omega (arith, sum_bound x (total xs) (2 ^ 55) (2 ^ 55 * length xs) all.0 (total_bound xs all.1))

AreShort-set : (xs : List ℤ) (i : ℕ) (x : ℤ) → AreShort xs → IsShort x → AreShort (set xs i x)
unfolding AreShort
AreShort-set [] i x all short = tt
AreShort-set (y ∷ ys) zero x all short = (short, all.1)
AreShort-set (y ∷ ys) (suc i) x all short = (all.0, AreShort-set ys i x all.1 short)

AllShort-at :
    (hs : List History) (i : ℕ) (h : History)
    → AllShort hs
    → get_elem? hs i ≡ some h
    → AreShort h.diff_time_history
unfolding AllShort
AllShort-at [] i h all e = absurd (cc)
AllShort-at (x ∷ hs) zero h all e =
    let same : x ≡ h = ground arith in
    subst (λ (y : History). AreShort y.diff_time_history) same all.0
AllShort-at (x ∷ hs) (suc i) h all e = AllShort-at hs i h all.1 e

AllShort-set :
    (hs : List History) (i : ℕ) (h : History)
    → AllShort hs
    → AreShort h.diff_time_history
    → AllShort (set hs i h)
unfolding AllShort
AllShort-set [] i h all short = tt
AllShort-set (x ∷ hs) zero h all short = (short, all.1)
AllShort-set (x ∷ hs) (suc i) h all short = (all.0, AllShort-set hs i h all.1 short)

fresh-AreShort : (n : ℕ) → AreShort (replicate n (pos 50000))
unfolding AreShort
fresh-AreShort zero = tt
fresh-AreShort (suc n) = (omega arith, fresh-AreShort n)

pub fresh-AllShort : (n : ℕ) → AllShort (replicate n init_history_time)
unfolding AllShort
fresh-AllShort zero = tt
fresh-AllShort (suc n) = (fresh-AreShort 64, fresh-AllShort n)

push-AreShort :
    (h h' : History) (v : ℤ)
    → push_sample h v ≡ done h'
    → AreShort h.diff_time_history
    → IsShort v
    → AreShort h'.diff_time_history
unfolding push_sample
push-AreShort h h' v ran all short =
    let tail' = (h.tail + 1) % history_window_size in
    let (x, _, ran₁) = >>=-eq-done (must (get_elem? h.diff_time_history h.head)) _ ran in
    let (u, _, ran₂) = >>=-eq-done (require (ltb tail' (length h.diff_time_history))) _ ran₁ in
    subst (λ (y : History). AreShort y.diff_time_history) (done_injective ran₂)
      (AreShort-set h.diff_time_history tail' v all short)

add_remain-AllShort :
    (this this' : LoadBalancer) (i : ℕ) (d : ℤ)
    → add_remain this i d ≡ done this'
    → AllShort this.history_diff_time_lst
    → AllShort this'.history_diff_time_lst
unfolding add_remain
add_remain-AllShort this this' i d ran all =
    let lst = this.history_diff_time_lst in
    let (h, got, ran₁) = >>=-eq-done (must (get_elem? lst i)) _ ran in
    let at = must-eq-done (get_elem? lst i) got in
    subst (λ (t : LoadBalancer). AllShort t.history_diff_time_lst) (done_injective ran₁)
      (AllShort-set lst i (record h { remain = h.remain +ℤ d }) all (AllShort-at lst i h all at))

finish-AllShort :
    (this this' : LoadBalancer) (i : ℕ) (beg now : ℤ)
    → finish_endpoint_task_time_based this i beg now ≡ done this'
    → IsShort (now -ℤ beg)
    → AllShort this.history_diff_time_lst
    → AllShort this'.history_diff_time_lst
unfolding finish_endpoint_task_time_based
finish-AllShort this this' i beg now ran short all =
    let lst = this.history_diff_time_lst in
    let (h, got, ran₁) = >>=-eq-done (must (get_elem? lst i)) _ ran in
    let at = must-eq-done (get_elem? lst i) got in
    let h₁ : History = record h { remain = h.remain -ℤ pos 1 } in
    let (h', pushed, ran₂) = >>=-eq-done (push_sample h₁ (now -ℤ beg)) _ ran₁ in
    subst (λ (t : LoadBalancer). AllShort t.history_diff_time_lst) (done_injective ran₂)
      (AllShort-set lst i h' all
        (push-AreShort h₁ h' (now -ℤ beg) pushed (AllShort-at lst i h all at) short))

among-AllShort :
    (this : LoadBalancer) (now : ℤ) (n : ℕ) (s : Selected)
    → select_among this now n ≡ done s
    → AllShort this.history_diff_time_lst
    → AllShort s.balancer.history_diff_time_lst
unfolding select_among
among-AllShort this now zero s ran all = absurd (cc)
among-AllShort this now (suc n) s ran all =
    let (val, _, ran₁) = >>=-eq-done (estimate_cost this n) _ ran in
    let (idx, _, ran₂) = >>=-eq-done (scan this n n val) _ ran₁ in
    let (this', added, ran₃) = >>=-eq-done (add_remain this idx (pos 1)) _ ran₂ in
    subst (λ (t : Selected). AllShort t.balancer.history_diff_time_lst) (done_injective ran₃)
      (add_remain-AllShort this this' idx (pos 1) added all)

select-AllShort :
    (this : LoadBalancer) (now : ℤ) (s : Selected)
    → select_endpoint_time_based this now ≡ done s
    → AllShort this.history_diff_time_lst
    → AllShort s.balancer.history_diff_time_lst
unfolding select_endpoint_time_based
select-AllShort this now s ran all = among-AllShort this now this.num_of_ends s ran all

-- Its samples stay short, and it makes no more selections than calls.
pub run-AllShort :
    (calls : List Call) (this this' : LoadBalancer) (chosen chosen' : List ℕ)
    → run this calls chosen ≡ done (this', chosen')
    → AreTimely calls
    → AllShort this.history_diff_time_lst
    → AllShort this'.history_diff_time_lst × (length chosen' ≤ length calls + length chosen)
unfolding run AreTimely
run-AllShort [] this this' chosen chosen' ran timely all =
    let same = done_injective ran in
    (
      subst (λ (t : LoadBalancer × List ℕ). AllShort t.0.history_diff_time_lst) same all,
      omega (arith, ap (λ (t : LoadBalancer × List ℕ). length t.1) same),
    )
run-AllShort (selects now ∷ calls) this this' chosen chosen' ran timely all =
    let (s, sel, rest) = >>=-eq-done (select_endpoint_time_based this now) _ ran in
    let (short, le) =
      run-AllShort calls s.balancer this' (s.endpoint ∷ chosen) chosen' rest timely
        (select-AllShort this now s sel all) in
    (short, omega (arith, le))
run-AllShort (finishes i beg now ∷ calls) this this' chosen chosen' ran timely all =
    let (mid, fin, rest) = >>=-eq-done (finish_endpoint_task_time_based this i beg now) _ ran in
    let (short, le) =
      run-AllShort calls mid this' chosen chosen' rest timely.1
        (finish-AllShort this mid i beg now fin timely.0 all) in
    (short, omega (arith, le))
run-AllShort (drops i ∷ calls) this this' chosen chosen' ran timely all =
    let (mid, dropped, rest) = >>=-eq-done (add_remain this i (negsuc 0)) _ ran in
    let (short, le) =
      run-AllShort calls mid this' chosen chosen' rest timely
        (add_remain-AllShort this mid i (negsuc 0) dropped all) in
    (short, omega (arith, le))

one_at_most : (b : Bool) (m n : ℕ) → m ≤ n → (if b then 1 else 0) + m ≤ suc n
one_at_most true m n le = omega arith
one_at_most false m n le = omega arith

count_bound : (i : ℕ) (chosen : List ℕ) → count i chosen ≤ length chosen
count_bound i [] = omega arith
count_bound i (j ∷ js) = one_at_most (j == i) (count i js) (length js) (count_bound i js)

returned_bound : (i : ℕ) (calls : List Call) → returned i calls ≤ length calls
returned_bound i [] = omega arith
returned_bound i (selects now ∷ calls) = omega (arith, returned_bound i calls)
returned_bound i (finishes j beg now ∷ calls) =
    one_at_most (j == i) (returned i calls) (length calls) (returned_bound i calls)
returned_bound i (drops j ∷ calls) =
    one_at_most (j == i) (returned i calls) (length calls) (returned_bound i calls)

difference_bound :
    (r : ℤ) (a b n : ℕ) → r +ℤ pos a ≡ pos b → a ≤ n → b ≤ n → pos_part r + neg_part r ≤ n
difference_bound r a b n e le le' = omega (int_laws, ap pos_part e, ap neg_part e, parts_lem r)

-- The state of an endpoint after a run that starts with no request out.
pub fits_words :
    (calls : List Call) (chosen : List ℕ) (i : ℕ) (this : LoadBalancer) (h : History)
    → IsValid h
    → get_elem? this.history_diff_time_lst i ≡ some h
    → AllShort this.history_diff_time_lst
    → h.remain +ℤ pos (returned i calls) ≡ pos (count i chosen)
    → length chosen ≤ length calls
    → length calls < 2 ^ 31
    → FitsWords h
fits_words calls chosen i this h valid at all ledger le few =
    let short = AllShort-at this.history_diff_time_lst i h all at in
    let bound = total_bound h.diff_time_history short in
    let small =
      difference_bound h.remain (returned i calls) (count i chosen) (length calls) ledger
        (returned_bound i calls) (omega (arith, count_bound i chosen)) in
    record {
      remain = omega (arith, small);
      samples = short;
      sum = omega (arith, bound, valid.full, ap pos_part valid.summed, ap neg_part valid.summed);
    }
