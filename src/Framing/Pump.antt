-- ===== src/Framing/Pump.antt =====
-- The receive loop over a whole connection: libuv reads the peer's bytes in pieces of any size, and
-- calls the loop after each.
use service_mesh_agent.Base.{
  ℕ, zero, suc, ◌+◌, ◌-◌, ◌≤◌, ◌<◌, ◌≡◌, refl, sym, ap, ◌∙◌, List, [], ◌∷◌, ◌++◌, append_assoc,
  append-nil, take, drop, length, Bytes, Exec, done, ◌>>=◌, arith, length-append, length-take,
  length-drop, le→leb, take-append-drop, min, length_zero, ◌⊎◌, inl, inr, take_both, concat_map,
  subst, ap₂, >>=-assoc, >>=_congr,
}
use service_mesh_agent.Framing.{Inbox, room, receive, drain}
use service_mesh_agent.Framing.Stream.{
  used, Handles, IsAll, IsShort, IsAll-append, apply_all, apply_all-append,
}
use service_mesh_agent.Framing.Settles.{IsServed, drain_settles, empty-IsShort}

-- How much one read takes: libuv asks for at most the room, and at least a byte.
abbrev pub read_size : ℕ → ℕ → Inbox → Bytes → ℕ
read_size max k i wire = min (suc k) (min (room max i) (length wire))

module _ {S : Type 0} (header length_at max : ℕ) (handle : Bytes → ℕ → S → Exec (Bytes × S)) where
  -- `wire` is what the peer has sent or will send; one number bounds each read.
  unfoldable pub pump : List ℕ → Inbox → Bytes → S → Exec (Inbox × Bytes × S)
  pump [] i wire s = done (i, wire, s)
  pump (k ∷ ks) i wire s =
      let n = read_size max k i wire in
      receive i (take n wire) >>= λ i.
      drain header length_at handle (suc i.size) i s >>= λ r. pump ks r.0 (drop n wire) r.1

-- What is read lands behind the received bytes.
receive_lem :
    (max n : ℕ) (i : Inbox) (wire : Bytes)
    → length i.buf ≡ max
    → i.size ≤ max
    → n ≤ room max i
    → n ≤ length wire
    → (i' : Inbox) × (receive i (take n wire) ≡ done i')
      × (used i' ++ drop n wire ≡ used i ++ wire)
      × (length i'.buf ≡ max)
      × (i'.size ≡ i.size + n)
unfolding receive
receive_lem max n i wire full le h₁ h₂ =
    let chunk = take n wire in
    let len : length chunk ≡ n = omega (arith, length-take n wire) in
    let tail = drop (i.size + length chunk) i.buf in
    (
      record { buf = take i.size i.buf ++ (chunk ++ tail); size = i.size + length chunk },
      rw (le→leb (i.size + length chunk) (length i.buf) (omega arith)) refl,
      ap (λ u. u ++ drop n wire)
            (take_both (i.size + length chunk) (take i.size i.buf) chunk tail
              (omega (arith, length-take i.size i.buf)))
          ∙ (append_assoc (take i.size i.buf) chunk (drop n wire)
              ∙ ap (λ w. take i.size i.buf ++ w) (take-append-drop n wire)),
      omega (
        arith,
        length-append (take i.size i.buf) (chunk ++ tail),
        length-append chunk tail,
        length-take i.size i.buf,
        length-drop (i.size + length chunk) i.buf,
      ),
      omega arith,
    )

reads_some : (k l free : ℕ) → 0 < free → (l ≡ 0) ⊎ (0 < min (suc k) (min free l))
reads_some k zero free h = inl refl
reads_some k (suc l) free h = inr (omega arith)

progress :
    (l n m : ℕ) (w left : Bytes)
    → length left ≡ l - n
    → n ≤ l
    → (length w + m ≤ length left) ⊎ (w ≡ [])
    → (l ≡ 0) ⊎ (0 < n)
    → (length w + suc m ≤ l) ⊎ (w ≡ [])
progress l n m w left e le (inr p) h = inr p
progress l n m w left e le (inl p) (inl z) = inr (length_zero w (omega arith))
progress l n m w left e le (inl p) (inr o) = inl (omega arith)

module _ {M S : Type 0} {header length_at max : ℕ} {handle : Bytes → ℕ → S → Exec (Bytes × S)}
    {wire : M → Bytes} {IsMessage : M → Type 0} {apply : M → S → Exec S}
    (H : Handles header length_at max handle wire IsMessage apply) where
  -- A message that is not whole leaves room.
  some_room :
      (i : Inbox) (bytes : Bytes) (fs : List M)
      → used i ++ bytes ≡ concat_map wire fs
      → IsAll IsMessage fs
      → length i.buf ≡ max
      → i.size ≤ max
      → IsShort wire i.size fs
      → (bytes ≡ []) ⊎ (i.size < max)
  unfolding IsAll IsShort
  some_room i bytes [] e all full le short =
      inl (length_zero bytes (omega (arith, length-append (used i) bytes, ap length e)))
  some_room i bytes (f ∷ fs) e all full le short = inr (omega (arith, H.fits f all.0))

  pub IsPumped : List ℕ → Inbox → Bytes → List M → Type 0
  IsPumped ks i bytes fs =
      (i' : Inbox) × (bytes' : Bytes) × (before : List M) × (after : List M) × ((s : S)
        → pump header length_at max handle ks i bytes s
          ≡ (apply_all apply before s >>= λ s'. done (i', bytes', s')))
      × (fs ≡ before ++ after)
      × (used i' ++ bytes' ≡ concat_map wire after)
      × (length i'.buf ≡ max)
      × (i'.size ≤ max)
      × IsShort wire i'.size after
      × ((length bytes' + length ks ≤ length bytes) ⊎ (bytes' ≡ []))

  -- One read and what follows it.
  pumps_on :
      (k : ℕ) (ks : List ℕ) (i i₁ i₂ : Inbox) (bytes : Bytes) (fs before after : List M)
      → receive i (take (read_size max k i bytes) bytes) ≡ done i₁
      → ((s : S)
          → drain header length_at handle (suc i₁.size) i₁ s
            ≡ (apply_all apply before s >>= λ s'. done (i₂, s')))
      → fs ≡ before ++ after
      → (length bytes ≡ 0) ⊎ (0 < read_size max k i bytes)
      → IsPumped ks i₂ (drop (read_size max k i bytes) bytes) after
      → IsPumped (k ∷ ks) i bytes fs
  unfolding pump IsPumped
  pumps_on k ks i i₁ i₂ bytes fs before after er ed ef some
        (i₃, bytes₃, before₃, after₃, ep, ef₃, ez₃, full₃, le₃, short₃, prog) =
      let n = read_size max k i bytes in
      (
        i₃,
        bytes₃,
        before ++ before₃,
        after₃,
        λ s.
            rw (er, ◌>>=◌, ed s, apply_all-append apply before before₃ s)
              (>>=-assoc (apply_all apply before s) (λ s'. done (i₂, s')) _
                ∙ (>>=_congr (apply_all apply before s) ep
                    ∙ sym (>>=-assoc (apply_all apply before s) (apply_all apply before₃) _))),
        ef ∙ (ap (λ g. before ++ g) ef₃ ∙ sym (append_assoc before before₃ after₃)),
        ez₃,
        full₃,
        le₃,
        short₃,
        progress (length bytes) n (length ks) bytes₃ (drop n bytes) (length-drop n bytes)
            (omega arith) prog some,
      )

  pub pump_serves :
      (ks : List ℕ) (i : Inbox) (bytes : Bytes) (fs : List M)
      → used i ++ bytes ≡ concat_map wire fs
      → IsAll IsMessage fs
      → length i.buf ≡ max
      → i.size ≤ max
      → IsShort wire i.size fs
      → IsPumped ks i bytes fs
  unfolding pump IsPumped IsServed
  pump_serves [] i bytes fs e all full le short =
      (i, bytes, [], fs, λ s. refl, refl, e, full, le, short, inl (omega arith))
  pump_serves (k ∷ ks) i bytes fs e all full le short =
      let n = read_size max k i bytes in
      let (i₁, er, eu, full₁, size₁) =
        receive_lem max n i bytes full le (omega arith) (omega arith) in
      let (i₂, before, after, ed, ef, ez, lb, full₂, short₂) =
        drain_settles H (suc i₁.size) i₁ (drop n bytes) fs (eu ∙ e) all full₁ (omega arith)
          (omega arith) in
      pumps_on k ks i i₁ i₂ bytes fs before after er ed ef
        (elim (some_room i bytes fs e all full le short) [
          | inl none ↦ inl (ap length none)
          | inr more ↦ reads_some k (length bytes) (room max i) (omega arith)
        ])
        (pump_serves ks i₂ (drop n bytes) after ez
          (IsAll-append IsMessage before after (subst (IsAll IsMessage) ef all)) full₂ (omega arith)
          short₂)

  nothing_left :
      (i : Inbox) (fs : List M)
      → used i ++ [] ≡ concat_map wire fs
      → i.size ≤ length i.buf
      → IsShort wire i.size fs
      → (fs ≡ []) × (i.size ≡ 0)
  unfolding IsShort
  nothing_left i [] e le short = (refl, short)
  nothing_left i (f ∷ fs) e le short = absurd (
      omega (
        arith,
        ap length e,
        length-append (used i) [],
        length-take i.size i.buf,
        length-append (wire f) (concat_map wire fs),
      ))

  -- Enough reads, of whatever sizes, serve every message of the connection, once and in order, and
  -- leave nothing in the buffer.
  pub pump_serves_all :
      (ks : List ℕ) (i : Inbox) (fs : List M)
      → IsAll IsMessage fs
      → length i.buf ≡ max
      → i.size ≡ 0
      → length (concat_map wire fs) ≤ length ks
      → (i' : Inbox) × ((s : S)
          → pump header length_at max handle ks i (concat_map wire fs) s
            ≡ (apply_all apply fs s >>= λ s'. done (i', [], s')))
        × (i'.size ≡ 0)
        × (length i'.buf ≡ max)
  unfolding IsPumped
  pump_serves_all ks i fs all full empty enough =
      let nothing : used i ≡ [] = length_zero (used i) (omega (arith, length-take i.size i.buf)) in
      let short : IsShort wire i.size fs = empty-IsShort H fs all empty in
      let (i', bytes, before, after, ep, ef, ez, full', le', short', prog) =
        pump_serves ks i (concat_map wire fs) fs (ap (λ u. u ++ concat_map wire fs) nothing) all
          full (omega arith) short in
      let read : bytes ≡ [] = elim prog [ inl p ↦ length_zero bytes (omega arith) | inr e ↦ e ] in
      let (gone, zero_left) =
        nothing_left i' after (ap (λ w. used i' ++ w) (sym read) ∙ ez) (omega arith) short' in
      let whole : fs ≡ before = ef ∙ (ap (λ g. before ++ g) gone ∙ append-nil before) in
      (
        i',
        λ s. ep s ∙ ap₂ (λ w fs. apply_all apply fs s >>= λ s'. done (i', w, s')) read (sym whole),
        zero_left,
        full',
      )
