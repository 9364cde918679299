-- ===== src/AtomicInteger/Order.antt =====
-- src/utils/atomic_integer.h: the order of the threads does not matter.
use service_mesh_agent.Base.{ℕ, ◌+◌, ◌^◌, ◌<◌, ◌≡◌, refl, List, [], ◌∷◌, arith}
use service_mesh_agent.Base.Words.{u32}
use service_mesh_agent.AtomicInteger.{AtomicInt, init_atomic_integer, add_all}

abbrev pub total : List ℕ → ℕ
total [] = 0
total (delta ∷ deltas) = delta + total deltas

add_all-value :
    (deltas : List ℕ) (atom : AtomicInt)
    → atom.value < 2 ^ 32
    → (add_all atom deltas).value ≡ u32 (atom.value + total deltas)
unfolding add_all
add_all-value [] atom lt = omega (arith, lt)
add_all-value (delta ∷ deltas) atom lt =
    let rest = add_all-value deltas (record { value = u32 (atom.value + delta) }) (omega arith) in
    omega (arith, rest)

-- The additions `xs` are those of two threads, each in its order.
pub data Interleaves : List ℕ → List ℕ → List ℕ → Type 0 where
  nothing : Interleaves [] [] []
  first : (d : ℕ) (ds es xs : List ℕ) → Interleaves ds es xs → Interleaves (d ∷ ds) es (d ∷ xs)
  second : (e : ℕ) (ds es xs : List ℕ) → Interleaves ds es xs → Interleaves ds (e ∷ es) (e ∷ xs)

total-Interleaves : (ds es xs : List ℕ) → Interleaves ds es xs → total xs ≡ total ds + total es
total-Interleaves _ _ _ nothing = refl
total-Interleaves _ _ _ (first d ds es xs i) = omega (arith, total-Interleaves ds es xs i)
total-Interleaves _ _ _ (second e ds es xs i) = omega (arith, total-Interleaves ds es xs i)

-- However the additions of two threads interleave, the value ends as the sum of all, as an int.
pub add_all-Interleaves :
    (init_value : ℕ) (ds es xs : List ℕ)
    → init_value < 2 ^ 32
    → Interleaves ds es xs
    → (add_all (init_atomic_integer init_value) xs).value ≡ u32 (init_value + (total ds + total es))
unfolding init_atomic_integer
add_all-Interleaves init_value ds es xs lt i =
    omega (arith, add_all-value xs (record { value = init_value }) lt, total-Interleaves ds es xs i)
