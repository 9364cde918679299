-- ===== src/Framing/Commute.antt =====
-- The receive loop under a change of the state that the handler does not see, and what it keeps of
-- the state when each call of the handler does.
use service_mesh_agent.Base.{
  ℕ, zero, suc, ◌+◌, ◌-◌, ◌≡◌, refl, sym, ap, ◌∙◌, Bytes, Exec, done, ◌>>=◌, inl, inr, Bool-cases,
  ltb, >>=-assoc, >>=_congr, >>=-eq-done, done_injective, subst,
}
use service_mesh_agent.Base.Words.{u32, int_to_size}
use service_mesh_agent.Codec.{read_int}
use service_mesh_agent.Framing.{Inbox, move_up, drain}

module _ {S : Type 0} (header length_at : ℕ) (handle : Bytes → ℕ → S → Exec (Bytes × S)) (φ : S → S)
    (h : (raw : Bytes) (n : ℕ) (s : S)
      → handle raw n (φ s) ≡ (handle raw n s >>= λ r. done (r.0, φ r.1))) where
  -- One whole message, and the loop `next` behind it.
  round_commutes :
      (next : Inbox → S → Exec (Inbox × S)) (i : Inbox) (n last : ℕ) (s : S)
      → ((i : Inbox) (s : S) → next i (φ s) ≡ (next i s >>= λ r. done (r.0, φ r.1)))
      → (handle i.buf n (φ s) >>= λ r. move_up r.0 last (i.size - last) >>= λ buf.
          next (record { buf = buf; size = i.size - last }) r.1)
        ≡ (handle i.buf n s >>= λ r. move_up r.0 last (i.size - last) >>= λ buf.
            next (record { buf = buf; size = i.size - last }) r.1)
          >>= λ r. done (r.0, φ r.1)
  round_commutes next i n last s ih =
      let on = λ (r : Bytes × S). move_up r.0 last (i.size - last) >>= λ buf.
      next (record { buf = buf; size = i.size - last }) r.1 in
      ap (λ m. m >>= on) (h i.buf n s)
      ∙ (>>=-assoc (handle i.buf n s) (λ r. done (r.0, φ r.1)) on
          ∙ (>>=_congr (handle i.buf n s) (λ r.
                >>=_congr (move_up r.0 last (i.size - last))
                  (λ buf. ih (record { buf = buf; size = i.size - last }) r.1)
                ∙ sym (>>=-assoc (move_up r.0 last (i.size - last)) _ _))
              ∙ sym (>>=-assoc (handle i.buf n s) on (λ r. done (r.0, φ r.1)))))

  pub drain_commutes :
      (fuel : ℕ) (i : Inbox) (s : S)
      → drain header length_at handle fuel i (φ s)
        ≡ (drain header length_at handle fuel i s >>= λ r. done (r.0, φ r.1))
  unfolding drain
  drain_commutes zero i s = refl
  drain_commutes (suc fuel) i s = elim (Bool-cases (ltb i.size header)) [
    | inl t ↦ rw (t) refl
    | inr f ↦ rw (f) (
        >>=_congr (read_int i.buf length_at) (λ n.
          let last = int_to_size (u32 (n + header)) in
          elim (Bool-cases (ltb i.size last)) [
            | inl t ↦ rw (t) refl
            | inr g ↦ rw (g) (
                round_commutes (drain header length_at handle fuel) i n last s
                  (drain_commutes fuel))
          ])
        ∙ sym (>>=-assoc (read_int i.buf length_at) _ _))
  ]

module _ {S : Type 0} (header length_at : ℕ) (handle : Bytes → ℕ → S → Exec (Bytes × S))
    (P : S → Type 0)
    (kept : (raw : Bytes) (n : ℕ) (s : S) (r : Bytes × S)
      → handle raw n s ≡ done r
      → P s
      → P r.1) where
  pub drain_keeps :
      (fuel : ℕ) (i : Inbox) (s : S) (r : Inbox × S)
      → drain header length_at handle fuel i s ≡ done r
      → P s
      → P r.1
  unfolding drain
  drain_keeps zero i s r h p = absurd (cc)
  drain_keeps (suc fuel) i s r h p = elim (Bool-cases (ltb i.size header)) [
    | inl t ↦ subst (λ x. P x.1) (done_injective (rw t at h)) p
    | inr f ↦
        let (n, en, h₁) = >>=-eq-done (read_int i.buf length_at) _ (rw f at h) in
        let last = int_to_size (u32 (n + header)) in
        elim (Bool-cases (ltb i.size last)) [
          | inl t ↦ subst (λ x. P x.1) (done_injective (rw t at h₁)) p
          | inr g ↦
              let (q, eq, h₂) = >>=-eq-done (handle i.buf n s) _ (rw g at h₁) in
              let (buf, eb, h₃) = >>=-eq-done (move_up q.0 last (i.size - last)) _ h₂ in
              drain_keeps fuel (record { buf = buf; size = i.size - last }) q.1 r h₃
                (kept i.buf n s q eq p)
        ]
  ]
