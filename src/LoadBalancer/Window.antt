-- ===== src/LoadBalancer/Window.antt =====
-- The circular buffer of response times as the window of the latest samples, oldest first.
use service_mesh_agent.Base.{
  ℕ, zero, suc, ◌+◌, ◌%◌, ◌<◌, ◌≡◌, refl, ap, ◌∙◌, List, [], ◌∷◌, ◌++◌, some, arith, length, set,
  take, drop, get_elem?, length-set, append_assoc, append-nil, done, get_elem?_in, lt→ltb,
  take_full, drop_full, drop_at, drop-set_before, take-set_next,
}
use native.Mathlib.Decide.{dec_lt}
use service_mesh_agent.Base.Int.{ℤ, pos, ◌+ℤ◌, ◌-ℤ◌, int_laws}
use service_mesh_agent.LoadBalancer.{History, history_window_size, push_sample}

abbrev pub total : List ℤ → ℤ
total [] = pos 0
total (x ∷ xs) = x +ℤ total xs

-- The samples in the order in which they came.
abbrev pub window : History → List ℤ
window h = drop h.head h.diff_time_history ++ take h.head h.diff_time_history

-- The window is full, `tail` is the slot before `head`, and the sum is that of the samples.
pub record IsValid (h : History) : Type 0 where
  pub full : length h.diff_time_history ≡ history_window_size
  pub head_in : h.head < history_window_size
  pub tail_in : h.tail < history_window_size
  pub meet : (h.tail + 1) % history_window_size ≡ h.head
  pub summed : h.diff_time_sum ≡ total h.diff_time_history

+ℤ_cancel_swap : (y v t : ℤ) → v +ℤ t ≡ y +ℤ t -ℤ y +ℤ v
+ℤ_cancel_swap y v t = omega int_laws

pub total-set :
    (xs : List ℤ) (i : ℕ) (v x : ℤ)
    → get_elem? xs i ≡ some x
    → total (set xs i v) ≡ total xs -ℤ x +ℤ v
total-set [] i v x h = absurd (cc)
total-set (y ∷ ys) zero v x h = ground (arith, +ℤ_cancel_swap y v (total ys))
total-set (y ∷ ys) (suc i) v x h = rw (total-set ys i v x h) (omega int_laws)

head-lt : (h : History) → IsValid h → h.head < length h.diff_time_history
head-lt h v = omega (arith, v.full, v.head_in)

-- What the bookkeeping of a sample leaves of the one endpoint.
pub record Pushed (h : History) (v : ℤ) (h' : History) : Type 0 where
  pub oldest : ℤ
  pub rest : List ℤ
  pub before : window h ≡ oldest ∷ rest
  pub after : window h' ≡ rest ++ v ∷ []
  pub valid : IsValid h'
  pub same_remain : h'.remain ≡ h.remain

abbrev pub pushed : History → ℤ → ℤ → History
pushed h x v = record {
  diff_time_sum = h.diff_time_sum -ℤ x +ℤ v;
  head = (h.head + 1) % history_window_size;
  tail = (h.tail + 1) % history_window_size;
  remain = h.remain;
  diff_time_history = set h.diff_time_history ((h.tail + 1) % history_window_size) v;
}

push_sample_runs :
    (h : History) (v x : ℤ)
    → IsValid h
    → get_elem? h.diff_time_history h.head ≡ some x
    → push_sample h v ≡ done (pushed h x v)
unfolding push_sample
push_sample_runs h v x valid e =
    rw (e, lt→ltb ((h.tail + 1) % 64) (length h.diff_time_history) (omega arith))

pushed-IsValid :
    (h : History) (v x : ℤ)
    → IsValid h
    → get_elem? h.diff_time_history h.head ≡ some x
    → IsValid (pushed h x v)
pushed-IsValid h v x valid e = record {
  full = length-set h.diff_time_history _ v ∙ valid.full;
  head_in = omega arith;
  tail_in = omega arith;
  meet = omega arith;
  summed = rw (valid.meet, total-set h.diff_time_history h.head v x e, valid.summed);
}

window-pushed :
    (h : History) (v x : ℤ)
    → IsValid h
    → get_elem? h.diff_time_history h.head ≡ some x
    → window (pushed h x v)
      ≡ (drop (suc h.head) h.diff_time_history ++ take h.head h.diff_time_history) ++ v ∷ []
window-pushed h v x valid e = elim (dec_lt (h.head + 1) 64) [
  | yes below ↦
      let next : (h.head + 1) % 64 ≡ suc h.head = omega arith in
      rw (
        valid.meet,
        next,
        took,
        drop-set_before xs h.head (suc h.head) v (omega arith),
        append_assoc,
      )
  | no last ↦
      let next : (h.head + 1) % 64 ≡ 0 = omega arith in
      rw
        (
          valid.meet,
          next,
          drop_full (suc h.head) h.diff_time_history (omega arith),
          append-nil,
          ← take_full (suc h.head) (set h.diff_time_history h.head v) (omega (arith, written)),
        )
        took
]
  where
    xs : List ℤ
    xs = h.diff_time_history

    took : take (suc h.head) (set xs h.head v) ≡ take h.head xs ++ v ∷ []
    took = take-set_next xs h.head v (head-lt h valid)

    written : length (set h.diff_time_history h.head v) ≡ length h.diff_time_history
    written = length-set h.diff_time_history h.head v

-- A valid endpoint takes a sample without a fault.
pub push_sample-Pushed :
    (h : History) (v : ℤ) → IsValid h → (h' : History) × (push_sample h v ≡ done h') × Pushed h v h'
push_sample-Pushed h v valid =
    let (x, e) = get_elem?_in h.diff_time_history h.head (head-lt h valid) in
    (
      pushed h x v,
      push_sample_runs h v x valid e,
      record {
        oldest = x;
        rest = drop (suc h.head) h.diff_time_history ++ take h.head h.diff_time_history;
        before =
            ap (λ ys. ys ++ take h.head h.diff_time_history) (drop_at h.diff_time_history h.head e);
        after = window-pushed h v x valid e;
        valid = pushed-IsValid h v x valid e;
        same_remain = refl;
      },
    )
