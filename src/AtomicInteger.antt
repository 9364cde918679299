-- ===== src/AtomicInteger.antt =====
-- src/utils/atomic_integer.h: an int behind a lock. Each addition is one step, since all but a read that
-- is overwritten happens under the lock; an overflow, undefined in C, wraps here.
pub mod Order
use service_mesh_agent.Base.{ℕ, ◌+◌, List, [], ◌∷◌}
use service_mesh_agent.Base.Words.{u32}

pub record AtomicInt : Type 0 where
  pub value : ℕ

unfoldable pub init_atomic_integer : ℕ → AtomicInt
init_atomic_integer init_value = record { value = init_value }

-- The new value is returned, too.
unfoldable pub atomic_add : AtomicInt → ℕ → AtomicInt × ℕ
atomic_add atom delta = let value = u32 (atom.value + delta) in (record { value = value }, value)

-- The additions of all threads, in the order in which they get the lock.
unfoldable pub add_all : AtomicInt → List ℕ → AtomicInt
unfolding atomic_add
add_all atom [] = atom
add_all atom (delta ∷ deltas) = add_all (atomic_add atom delta).0 deltas
