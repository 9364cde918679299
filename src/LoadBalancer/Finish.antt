-- ===== src/LoadBalancer/Finish.antt =====
-- finish_endpoint_task_time_based: the bookkeeping of the sample windows.
use service_mesh_agent.Base.{
  ℕ, zero, suc, ◌≤◌, ◌<◌, ◌≡◌, refl, ◌≢◌, ◌⊎◌, inl, inr, List, [], ◌∷◌, ◌++◌, some, arith, length,
  set, get_elem?, length-set, lt_of_get_elem?, replicate, length-replicate, done, fault,
  get_elem?-set_self, get_elem?-set_ne, get_elem?_beyond, get_elem?_in, subst, ◌∙◌, ◌>>=◌, must,
}
use native.Mathlib.Decide.{dec_lt}
use service_mesh_agent.Base.Int.{ℤ, pos, ◌+ℤ◌, ◌-ℤ◌}
use service_mesh_agent.LoadBalancer.{
  History, LoadBalancer, init_history_time, finish_endpoint_task_time_based,
}
use service_mesh_agent.LoadBalancer.Window.{IsValid, window, push_sample-Pushed}

abbrev pub AllValid : List History → Type 0
AllValid [] = Unit
AllValid (h ∷ hs) = IsValid h × AllValid hs

-- Every endpoint has its bookkeeping, and each is in order.
pub record IsSound (this : LoadBalancer) : Type 0 where
  pub counted : length this.history_diff_time_lst ≡ this.num_of_ends
  pub each : AllValid this.history_diff_time_lst

pub IsValid-at :
    (hs : List History) (i : ℕ) {h : History} → AllValid hs → get_elem? hs i ≡ some h → IsValid h
IsValid-at [] i v e = absurd (cc)
IsValid-at (x ∷ hs) zero v e = subst IsValid (ground arith) v.0
IsValid-at (x ∷ hs) (suc i) v e = IsValid-at hs i v.1 e

pub AllValid-set :
    (hs : List History) (i : ℕ) (h : History) → AllValid hs → IsValid h → AllValid (set hs i h)
AllValid-set [] i h v w = tt
AllValid-set (x ∷ hs) zero h v w = (w, v.1)
AllValid-set (x ∷ hs) (suc i) h v w = (v.0, AllValid-set hs i h v.1 w)

pub fresh-IsValid : IsValid init_history_time
fresh-IsValid = record {
  full = refl;
  head_in = omega arith;
  tail_in = omega arith;
  meet = refl;
  summed = unfold ◌+ℤ◌ in refl;
}

AllValid-replicate : (n : ℕ) → AllValid (replicate n init_history_time)
AllValid-replicate zero = tt
AllValid-replicate (suc n) = (fresh-IsValid, AllValid-replicate n)

-- The load balancer that init_load_balancer makes.
pub fresh-IsSound :
    (n : ℕ)
    → IsSound (record { num_of_ends = n; history_diff_time_lst = replicate n init_history_time })
fresh-IsSound n = record {
  counted = length-replicate n init_history_time;
  each = AllValid-replicate n;
}

-- What a finished request changes: one endpoint, whose window moves by one sample.
pub record Finished (this : LoadBalancer) (i : ℕ) (sample : ℤ) (this' : LoadBalancer) : Type 0 where
  pub old : History
  pub new : History
  pub was : get_elem? this.history_diff_time_lst i ≡ some old
  pub is : get_elem? this'.history_diff_time_lst i ≡ some new
  pub oldest : ℤ
  pub rest : List ℤ
  pub before : window old ≡ oldest ∷ rest
  pub after : window new ≡ rest ++ sample ∷ []
  pub one_less : new.remain ≡ old.remain -ℤ pos 1
  pub others :
      (j : ℕ)
      → j ≢ i
      → get_elem? this'.history_diff_time_lst j ≡ get_elem? this.history_diff_time_lst j
  pub sound : IsSound this'

pub Finished-at :
    (this : LoadBalancer) (i : ℕ) (beg now : ℤ) (h : History)
    → IsSound this
    → get_elem? this.history_diff_time_lst i ≡ some h
    → (this' : LoadBalancer) × (finish_endpoint_task_time_based this i beg now ≡ done this')
      × Finished this i (now -ℤ beg) this'
unfolding finish_endpoint_task_time_based
Finished-at this i beg now h s e =
    let h₁ : History = record h { remain = h.remain -ℤ pos 1 } in
    let v : IsValid h = IsValid-at this.history_diff_time_lst i s.each e in
    let v₁ : IsValid h₁ = record {
      full = v.full;
      head_in = v.head_in;
      tail_in = v.tail_in;
      meet = v.meet;
      summed = v.summed;
    } in
    let (h', ran, p) = push_sample-Pushed h₁ (now -ℤ beg) v₁ in
    (
      record this { history_diff_time_lst = set this.history_diff_time_lst i h' },
      rw (e, ◌>>=◌, must, ran),
      record {
        old = h;
        new = h';
        was = e;
        is =
            get_elem?-set_self this.history_diff_time_lst i h'
              (lt_of_get_elem? this.history_diff_time_lst i e);
        oldest = p.oldest;
        rest = p.rest;
        before = p.before;
        after = p.after;
        one_less = p.same_remain;
        others =
            λ j ne. get_elem?-set_ne this.history_diff_time_lst i j h' (λ q. ne (ground arith));
        sound = record {
          counted = length-set this.history_diff_time_lst i h' ∙ s.counted;
          each = AllValid-set this.history_diff_time_lst i h' s.each p.valid;
        };
      },
    )

finish_unknown :
    (this : LoadBalancer) (i : ℕ) (beg now : ℤ)
    → length this.history_diff_time_lst ≤ i
    → finish_endpoint_task_time_based this i beg now ≡ fault
unfolding finish_endpoint_task_time_based
finish_unknown this i beg now h = rw (get_elem?_beyond this.history_diff_time_lst i h, ◌>>=◌, must)

-- On a sound load balancer a request to a known endpoint is finished without a fault: the sum stays
-- that of the last 64 samples, the oldest of which is replaced by the new one, `remain` falls by
-- one, and no other endpoint changes. An unknown endpoint is a fault.
pub finish_moves_window :
    (this : LoadBalancer) (i : ℕ) (beg now : ℤ)
    → IsSound this
    → ((this' : LoadBalancer) × (i < this.num_of_ends)
        × (finish_endpoint_task_time_based this i beg now ≡ done this')
        × Finished this i (now -ℤ beg) this')
      ⊎ ((this.num_of_ends ≤ i) × (finish_endpoint_task_time_based this i beg now ≡ fault))
finish_moves_window this i beg now s = elim (dec_lt i this.num_of_ends) [
  | yes known ↦
      let (x, e) = get_elem?_in this.history_diff_time_lst i (omega (arith, s.counted)) in
      let (this', ran, f) = Finished-at this i beg now x s e in inl (this', known, ran, f)
  | no unknown ↦ inr (omega arith, finish_unknown this i beg now (omega (arith, s.counted)))
]
