-- ===== src/Framing/Stream.antt =====
-- What a stream of messages is, and what a handler does with one of them.
use service_mesh_agent.Base.{
  ℕ, ◌+◌, ◌^◌, ◌≤◌, ◌<◌, ◌≡◌, refl, sym, ap, ◌∙◌, List, [], ◌∷◌, ◌++◌, append_assoc, append-nil,
  take, length, Bytes, Exec, done, ◌>>=◌, concat_map, >>=-assoc, >>=_congr,
}
use service_mesh_agent.Codec.{read_int}
use service_mesh_agent.Framing.{Inbox}

-- The bytes received and not yet handled.
abbrev pub used : Inbox → Bytes
used i = take i.size i.buf

-- What the loop does with a whole message depends on the message and the state: it leaves the buffer
-- as it is, and `apply` says what becomes of the state.
pub record Handles {M S : Type 0} (header length_at max : ℕ)
    (handle : Bytes → ℕ → S → Exec (Bytes × S)) (wire : M → Bytes) (IsMessage : M → Type 0)
    (apply : M → S → Exec S) : Type 0 where
  pub some_header : length_at + 4 ≤ header
  pub has_header : (m : M) → IsMessage m → header ≤ length (wire m)
  pub fits : (m : M) → IsMessage m → length (wire m) ≤ max
  pub short : max < 2 ^ 31
  pub says_length :
      (m : M)
      → IsMessage m
      → (n : ℕ) × (read_int (wire m) length_at ≡ done n) × (n + header ≡ length (wire m))
  pub handled :
      (m : M) (rest : Bytes) (n : ℕ) (s : S)
      → IsMessage m
      → n + header ≡ length (wire m)
      → length (wire m ++ rest) ≡ max
      → handle (wire m ++ rest) n s ≡ (apply m s >>= λ s'. done (wire m ++ rest, s'))

-- One message after the other.
abbrev pub apply_all : {M S : Type 0} → (M → S → Exec S) → List M → S → Exec S
apply_all apply [] s = done s
apply_all apply (m ∷ ms) s = apply m s >>= apply_all apply ms

pub apply_all-append :
    {M S : Type 0} (apply : M → S → Exec S) (ms ns : List M) (s : S)
    → apply_all apply (ms ++ ns) s ≡ (apply_all apply ms s >>= apply_all apply ns)
apply_all-append apply [] ns s = refl
apply_all-append apply (m ∷ ms) ns s =
    >>=_congr (apply m s) (apply_all-append apply ms ns)
    ∙ sym (>>=-assoc (apply m s) (apply_all apply ms) (apply_all apply ns))

-- Messages that only add to the output.
abbrev pub emits : {M Out : Type 0} → (M → List Out) → M → List Out → Exec (List Out)
emits emit m out = done (out ++ emit m)

pub apply_all-emits :
    {M Out : Type 0} (emit : M → List Out) (ms : List M) (out : List Out)
    → apply_all (emits emit) ms out ≡ done (out ++ concat_map emit ms)
apply_all-emits emit [] out = rw (append-nil out) refl
apply_all-emits emit (m ∷ ms) out =
    apply_all-emits emit ms (out ++ emit m)
    ∙ ap done (append_assoc out (emit m) (concat_map emit ms))

unfoldable pub IsAll : {M : Type 0} → (M → Type 0) → List M → Type 0
IsAll P [] = Unit
IsAll P (f ∷ fs) = P f × IsAll P fs

-- What is left is less than a whole message.
unfoldable pub IsShort : {M : Type 0} → (M → Bytes) → ℕ → List M → Type 0
IsShort wire n [] = n ≡ 0
IsShort wire n (f ∷ fs) = n < length (wire f)

pub IsAll-append : {M : Type 0} (P : M → Type 0) (fs gs : List M) → IsAll P (fs ++ gs) → IsAll P gs
unfolding IsAll
IsAll-append P [] gs h = h
IsAll-append P (f ∷ fs) gs h = IsAll-append P fs gs h.1
