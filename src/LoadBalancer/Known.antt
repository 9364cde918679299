-- ===== src/LoadBalancer/Known.antt =====
-- src/utils/loadBalancer.c: for a known endpoint of a sound balancer no bookkeeping faults.
use service_mesh_agent.Base.{
  ℕ, ◌<◌, ◌≡◌, refl, ◌∙◌, done, ◌>>=◌, must, get_elem?_in, set, length-set, lt_of_get_elem?, arith,
  inl, inr, sym, subst, done_injective,
}
use service_mesh_agent.Base.Int.{ℤ, ◌+ℤ◌}
use service_mesh_agent.LoadBalancer.{
  History, LoadBalancer, Selected, select_endpoint_time_based, add_remain,
  finish_endpoint_task_time_based,
}
use service_mesh_agent.LoadBalancer.Window.{IsValid}
use service_mesh_agent.LoadBalancer.Select.{select_endpoint_lem}
use service_mesh_agent.LoadBalancer.Finish.{IsSound, IsValid-at, AllValid-set, Finished-at}

-- A balancer that an operation on endpoint `i` has left.
pub record Leaves (i : ℕ) (this' : LoadBalancer) : Type 0 where
  pub sound : IsSound this'
  pub known : i < this'.num_of_ends

module _ (this : LoadBalancer) (i : ℕ) (s : IsSound this) (k : i < this.num_of_ends) where
  pub finish-Leaves :
      (beg now : ℤ)
      → (this' : LoadBalancer) × (finish_endpoint_task_time_based this i beg now ≡ done this')
        × Leaves i this'
  finish-Leaves beg now =
      let (h, e) = get_elem?_in this.history_diff_time_lst i (omega (arith, s.counted)) in
      let (this', ran, f) = Finished-at this i beg now h s e in
      let found = lt_of_get_elem? this'.history_diff_time_lst i f.is in
      (this', ran, record { sound = f.sound; known = omega (arith, found, f.sound.counted) })

  pub add_remain-Leaves :
      (delta : ℤ) → (this' : LoadBalancer) × (add_remain this i delta ≡ done this') × Leaves i this'
  unfolding add_remain
  add_remain-Leaves delta =
      let (h, e) = get_elem?_in this.history_diff_time_lst i (omega (arith, s.counted)) in
      let v = IsValid-at this.history_diff_time_lst i s.each e in
      let h' : History = record h { remain = h.remain +ℤ delta } in
      let v' : IsValid h' = record {
        full = v.full;
        head_in = v.head_in;
        tail_in = v.tail_in;
        meet = v.meet;
        summed = v.summed;
      } in
      (
        record this { history_diff_time_lst = set this.history_diff_time_lst i h' },
        rw (e, must, ◌>>=◌) refl,
        record {
          sound = record {
            counted = length-set this.history_diff_time_lst i h' ∙ s.counted;
            each = AllValid-set this.history_diff_time_lst i h' s.each v';
          };
          known = k;
        },
      )

pub select-Leaves :
    (this : LoadBalancer) (now : ℤ) (sel : Selected)
    → IsSound this
    → select_endpoint_time_based this now ≡ done sel
    → Leaves sel.endpoint sel.balancer
select-Leaves this now sel s e = elim (select_endpoint_lem this now s) [
  | inl (found, some_ends, few_ends, ran, c) ↦
      subst (λ (x : Selected). Leaves x.endpoint x.balancer) (done_injective (sym ran ∙ e))
        (record {
          sound = c.sound;
          known = omega (
            arith,
            c.sound.counted,
            lt_of_get_elem? found.balancer.history_diff_time_lst found.endpoint c.is,
          );
        })
  | inr (ends, faults) ↦ absurd (cc)
]
