-- ===== src/Uv.antt =====
-- What the agents ask of libuv and of the allocator, as values: the requests in the order they are
-- made, what a read callback is told, and the blocks that malloc has handed out. libuv itself runs
-- the callbacks; the handlers of the agents are functions of what it tells them.
use service_mesh_agent.Base.{
  ℕ, suc, ◌≡◌, refl, ap, ◌++◌, List, [], ◌∷◌, ◌==◌, if◌then◌else◌, Bytes, Exec, done, ◌>>=◌, must,
  Option, none, some,
}

-- A uv_tcp_t or a uv_connect_t is named by the number of its block.
pub data Request : Type 0 where
  uv_write : ℕ → Bytes → Request
  uv_tcp_connect : ℕ → ℕ → Request
  uv_read_start uv_close sleep : ℕ → Request
  uv_listen : Request

-- Bytes (nread above 0), nothing yet (nread is 0), the end of the stream, another error.
pub data Read : Type 0 where
  arrived : Bytes → Read
  again eof error : Read

-- The handles that are asked to be closed.
unfoldable pub closes : List Request → List ℕ
closes [] = []
closes (uv_close handle ∷ asked) = handle ∷ closes asked
closes (uv_write handle bytes ∷ asked) = closes asked
closes (uv_tcp_connect connection handle ∷ asked) = closes asked
closes (uv_read_start handle ∷ asked) = closes asked
closes (sleep seconds ∷ asked) = closes asked
closes (uv_listen ∷ asked) = closes asked

pub closes-append : (rs bs : List Request) → closes (rs ++ bs) ≡ closes rs ++ closes bs
unfolding closes
closes-append [] bs = refl
closes-append (uv_close handle ∷ rs) bs = ap (λ hs. handle ∷ hs) (closes-append rs bs)
closes-append (uv_write handle bytes ∷ rs) bs = closes-append rs bs
closes-append (uv_tcp_connect connection handle ∷ rs) bs = closes-append rs bs
closes-append (uv_read_start handle ∷ rs) bs = closes-append rs bs
closes-append (sleep seconds ∷ rs) bs = closes-append rs bs
closes-append (uv_listen ∷ rs) bs = closes-append rs bs

pub record Heap : Type 0 where
  pub next : ℕ
  pub live : List ℕ

abbrev pub malloc : Heap → ℕ × Heap
malloc h = (h.next, record { next = suc h.next; live = h.next ∷ h.live })

unfoldable pub remove : ℕ → List ℕ → Option (List ℕ)
remove p [] = none
remove p (q ∷ qs) =
    if p == q then some qs else (elim (remove p qs) [ none ↦ none | some rest ↦ some (q ∷ rest) ])

-- free (NULL) does nothing; free of a block that is not live is a fault.
unfoldable pub free : Heap → Option ℕ → Exec Heap
unfolding remove
free h none = done h
free h (some p) = must (remove p h.live) >>= λ live. done (record h { live = live })
