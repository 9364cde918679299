-- ===== src/LoadBalancer.antt =====
-- src/utils/loadBalancer.c and loadBalancer.h: the endpoint with the lowest recent response time,
-- from a window of the last samples of each endpoint. Every call is made under `lb_lock`.
-- int and int64_t values are integers without a bound. That is exact as long as none leaves its C type,
-- where the code is undefined: Bounds says for which runs.
pub mod Window
pub mod Scan
pub mod Select
pub mod Finish
pub mod Known
pub mod Ledger
pub mod Bounds
pub mod Served
mod Tests
use service_mesh_agent.Base.{
  ℕ, zero, suc, ◌+◌, ◌*◌, ◌-◌, ◌^◌, ◌%◌, List, [], ◌∷◌, true, get_elem?, set, length, replicate,
  ltb, leb, if◌then◌else◌, Exec, done, fault, ◌>>=◌, ◌>>◌, must, require,
}
use service_mesh_agent.Base.Int.{ℤ, pos, ◌+ℤ◌, ◌-ℤ◌, ltb_ℤ}

-- HISTORY_WINDOW_SIZE
abbrev pub history_window_size : ℕ
history_window_size = 64

-- The size of `history_diff_time_lst`.
abbrev pub max_ends : ℕ
max_ends = 16

abbrev pub int64_max : ℤ
int64_max = pos (2 ^ 63 - 1)

abbrev pub direct_send_limit : List ℤ
direct_send_limit = pos 8 ∷ pos 8 ∷ pos 8 ∷ []

abbrev pub penalty_send_limit : List ℤ
penalty_send_limit = pos 140 ∷ pos 200 ∷ pos 200 ∷ []

-- `history_diff_time_t`
pub record History : Type 0 where
  pub diff_time_sum : ℤ
  pub head : ℕ
  pub tail : ℕ
  pub remain : ℤ
  pub diff_time_history : List ℤ

-- `load_balancer_t`: the list holds the pointers that `init_load_balancer` has set.
pub record LoadBalancer : Type 0 where
  pub num_of_ends : ℕ
  pub history_diff_time_lst : List History

abbrev pub init_history_time : History
init_history_time = record {
  diff_time_sum = pos (50000 * history_window_size);
  head = 0;
  tail = history_window_size - 1;
  remain = pos 0;
  diff_time_history = replicate history_window_size (pos 50000);
}

-- More endpoints than the array has room for are written behind it.
unfoldable pub init_load_balancer : ℕ → Exec LoadBalancer
init_load_balancer num_of_ends =
    if leb num_of_ends max_ends
    then done (record {
      num_of_ends = num_of_ends;
      history_diff_time_lst = replicate num_of_ends init_history_time;
    })
    else fault

-- The cost of an endpoint, given its two limits.
abbrev pub cost_within : ℤ → ℤ → History → ℤ
cost_within penalty direct h =
    if ltb_ℤ h.remain penalty
    then (if ltb_ℤ h.remain direct then pos 0 else h.diff_time_sum)
    else int64_max

unfoldable pub estimate_cost : LoadBalancer → ℕ → Exec ℤ
estimate_cost this index = do
  h ← must (get_elem? this.history_diff_time_lst index)
  penalty ← must (get_elem? penalty_send_limit index)
  direct ← must (get_elem? direct_send_limit index)
  done (cost_within penalty direct h)

-- The loop of `select_endpoint_time_based` with `i` endpoints still to look at.
unfoldable pub scan : LoadBalancer → ℕ → ℕ → ℤ → Exec ℕ
scan this zero min_idx min_val = done min_idx
scan this (suc i) min_idx min_val = estimate_cost this i >>= λ tmp.
    scan this i (if ltb_ℤ tmp min_val then i else min_idx)
      (if ltb_ℤ tmp min_val then tmp else min_val)

unfoldable pub add_remain : LoadBalancer → ℕ → ℤ → Exec LoadBalancer
add_remain this i delta = do
  h ← must (get_elem? this.history_diff_time_lst i)
  done (record this {
    history_diff_time_lst =
        set this.history_diff_time_lst i (record h { remain = h.remain +ℤ delta });
  })

-- What a selection returns, and what it stores into the request's `ts_req_beg`.
pub record Selected : Type 0 where
  pub endpoint : ℕ
  pub balancer : LoadBalancer
  pub ts_req_beg : ℤ

unfoldable pub select_among : LoadBalancer → ℤ → ℕ → Exec Selected
select_among this now zero = fault
select_among this now (suc last) = do
  min_val ← estimate_cost this last
  min_idx ← scan this last last min_val
  this' ← add_remain this min_idx (pos 1)
  done (record { endpoint = min_idx; balancer = this'; ts_req_beg = now })

-- `now` is what `get_wall_time` returns. With no endpoint the first index is -1.
unfoldable pub select_endpoint_time_based : LoadBalancer → ℤ → Exec Selected
unfolding select_among
select_endpoint_time_based this now = select_among this now this.num_of_ends

-- The bookkeeping of one endpoint for a request that took `new_diff_time`.
unfoldable pub push_sample : History → ℤ → Exec History
push_sample h new_diff_time = do
  oldest_diff ← must (get_elem? h.diff_time_history h.head)
  let tail' = (h.tail + 1) % history_window_size
  require (ltb tail' (length h.diff_time_history))
  done (record {
    diff_time_sum = h.diff_time_sum -ℤ oldest_diff +ℤ new_diff_time;
    head = (h.head + 1) % history_window_size;
    tail = tail';
    remain = h.remain;
    diff_time_history = set h.diff_time_history tail' new_diff_time;
  })

unfoldable pub finish_endpoint_task_time_based : LoadBalancer → ℕ → ℤ → ℤ → Exec LoadBalancer
finish_endpoint_task_time_based this end_point_idx ts_req_beg now = do
  h ← must (get_elem? this.history_diff_time_lst end_point_idx)
  h' ← push_sample (record h { remain = h.remain -ℤ pos 1 }) (now -ℤ ts_req_beg)
  done (record this { history_diff_time_lst = set this.history_diff_time_lst end_point_idx h' })
