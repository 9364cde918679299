-- ===== src/Base/Memory.antt =====
-- Buffers of bytes: what memcpy reads and writes. An access that leaves the buffer is a fault.
use Prim.Native.Nat.{ℕ, ◌+◌, ◌≤◌, ◌<◌, ◌^◌}
use Prim.Native.Char.{code}
use Prim.Native.String.{String}
use mathlib.Core.Bool.{Bool, true, false, ◌&&◌}
use mathlib.Core.Path.{◌≡◌, ap, ◌∙◌}
use mathlib.Core.List.{List, [], ◌∷◌, ◌++◌}
use native.Mathlib.Omega.{arith}
use service_mesh_agent.Base.Compare.{leb, ◌==◌, if◌then◌else◌, le→leb}
use service_mesh_agent.Base.Lists.{length, take, drop, take_all, drop_all, length-append, drop-drop}
use service_mesh_agent.Base.Runs.{Exec, done, fault}

abbrev pub Bytes : Type 0
Bytes = List ℕ

-- The bytes of a string literal.
abbrev pub codes : String → Bytes
codes String.[] = []
codes (String.◌∷◌ c s) = code c ∷ codes s

-- memcmp or strncmp, on equally many bytes without a 0
abbrev pub eq_bytes : Bytes → Bytes → Bool
eq_bytes [] [] = true
eq_bytes [] (c ∷ cs) = false
eq_bytes (b ∷ bs) [] = false
eq_bytes (b ∷ bs) (c ∷ cs) = (b == c) && eq_bytes bs cs

-- The `n` bytes of the buffer from `off` on.
abbrev pub slice : Bytes → ℕ → ℕ → Exec Bytes
slice buf off n = if leb (off + n) (length buf) then done (take n (drop off buf)) else fault

-- memcpy (buf + off, bytes, length bytes)
abbrev pub write : Bytes → ℕ → Bytes → Exec Bytes
write buf off bytes =
    if leb (off + length bytes) (length buf)
    then done (take off buf ++ (bytes ++ drop (off + length bytes) buf))
    else fault

abbrev pub IsBytes : Bytes → Type 0
IsBytes [] = Unit
IsBytes (b ∷ bs) = (b < 2 ^ 8) × IsBytes bs

-- Writing just behind a prefix extends it.
pub write_behind :
    (p bs rest : Bytes)
    → length bs ≤ length rest
    → write (p ++ rest) (length p) bs ≡ done (p ++ (bs ++ drop (length bs) rest))
write_behind p bs rest h = rw (
  le→leb (length p + length bs) (length (p ++ rest)) (omega (arith, length-append p rest)),
  take_all p rest,
  ← drop-drop (length bs) (length p) (p ++ rest),
  drop_all p rest,
)

pub slice_of_append :
    (p bs rest : Bytes) → slice (p ++ (bs ++ rest)) (length p) (length bs) ≡ done bs
slice_of_append p bs rest = rw (
  le→leb (length p + length bs) (length (p ++ (bs ++ rest)))
      (omega (arith, length-append p (bs ++ rest), length-append bs rest)),
  drop_all p (bs ++ rest),
  take_all bs rest,
)

-- Writing over bytes of the same number.
pub write_over :
    (p old bs rest : Bytes)
    → length bs ≡ length old
    → write (p ++ (old ++ rest)) (length p) bs ≡ done (p ++ (bs ++ rest))
write_over p old bs rest e =
    write_behind p bs (old ++ rest) (omega (arith, e, length-append old rest))
    ∙ ap (λ r. done (p ++ (bs ++ r)))
        (ap (λ n. drop n (old ++ rest)) {x = length bs} {y = length old} e ∙ drop_all old rest)
