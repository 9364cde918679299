-- ===== src/Consumer/Blocks.antt =====
-- src/consumer_agent.c: the blocks that an event loop holds for its endpoints, a uv_connect_t and a
-- uv_tcp_t each, and what freeing one does to the heap.
use service_mesh_agent.Base.{
  ℕ, zero, suc, ◌+◌, ◌≤◌, ◌≡◌, refl, ap, List, [], ◌∷◌, ◌==◌, if◌then◌else◌, done, ◌>>=◌, must,
  Option, none, some, Bool-cases, inl, inr, arith, get_elem?, set,
}
use service_mesh_agent.Uv.{Heap, malloc, free, remove}
use service_mesh_agent.Consumer.State.{EndpointServer}

unfoldable pub is : ℕ → ℕ → ℕ
is q p = if p == q then 1 else 0

-- How often block `q` is in a list.
unfoldable pub copies : ℕ → List ℕ → ℕ
copies q [] = 0
copies q (p ∷ ps) = is q p + copies q ps

unfoldable pub held : ℕ → Option ℕ → ℕ
held q none = 0
held q (some p) = is q p

-- How often endpoints hold block `q`.
unfoldable pub holds : ℕ → List EndpointServer → ℕ
holds q [] = 0
holds q (e ∷ es) = held q e.conn + held q e.tcp_stream + holds q es

is_self : (p : ℕ) → is p p ≡ 1
unfolding is
is_self p = ground arith

remove_lem :
    (p : ℕ) (live : List ℕ)
    → 1 ≤ copies p live
    → (l : List ℕ) × (remove p live ≡ some l) × ((q : ℕ) → copies q l + is q p ≡ copies q live)
unfolding remove copies is
remove_lem p [] h = absurd (omega arith)
remove_lem p (x ∷ xs) h = elim (Bool-cases (p == x)) [
  | inl e ↦ (xs, rw e refl, λ q. ground arith)
  | inr n ↦
      let (l, e, k) = remove_lem p xs (ground arith) in
      (x ∷ l, rw (n, e) refl, λ q. omega (arith, k q))
]

pub free_lem :
    (h : Heap) (p : Option ℕ)
    → ((q : ℕ) → held q p ≤ copies q h.live)
    → (h' : Heap) × (free h p ≡ done h') × ((q : ℕ) → copies q h'.live + held q p ≡ copies q h.live)
unfolding free held
free_lem h none owned = (h, refl, λ q. omega arith)
free_lem h (some p) owned =
    let (l, e, k) = remove_lem p h.live (omega (arith, owned p, is_self p)) in
    (record h { live = l }, rw (e, must, ◌>>=◌) refl, k)

same_held :
    (q : ℕ) {x e : EndpointServer}
    → some x ≡ some e
    → held q x.conn + held q x.tcp_stream ≡ held q e.conn + held q e.tcp_stream
same_held q {x = x} {e = e} h =
    let same : x ≡ e = cc in ap (λ (y : EndpointServer). held q y.conn + held q y.tcp_stream) same

pub holds-set :
    (q : ℕ) (es : List EndpointServer) (i : ℕ) (e e' : EndpointServer)
    → get_elem? es i ≡ some e
    → holds q (set es i e') + (held q e.conn + held q e.tcp_stream)
      ≡ holds q es + (held q e'.conn + held q e'.tcp_stream)
unfolding holds
holds-set q [] i e e' h = absurd (cc)
holds-set q (x ∷ es) zero e e' h = omega (arith, same_held q h)
holds-set q (x ∷ es) (suc i) e e' h = omega (arith, holds-set q es i e e' h)

-- An endpoint holds no more than all of them.
pub holds-get_elem? :
    (q : ℕ) (es : List EndpointServer) (i : ℕ) (e : EndpointServer)
    → get_elem? es i ≡ some e
    → held q e.conn + held q e.tcp_stream ≤ holds q es
unfolding holds
holds-get_elem? q [] i e h = absurd (cc)
holds-get_elem? q (x ∷ es) zero e h = omega (arith, same_held q h)
holds-get_elem? q (x ∷ es) (suc i) e h = omega (arith, holds-get_elem? q es i e h)

pub copies-malloc : (q : ℕ) (h : Heap) → copies q (malloc h).1.live ≡ is q h.next + copies q h.live
unfolding copies
copies-malloc q h = refl
