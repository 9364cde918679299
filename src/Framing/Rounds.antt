-- ===== src/Framing/Rounds.antt =====
-- One round of the receive loop on the bytes that have been received.
use service_mesh_agent.Base.{
  ℕ, suc, ◌+◌, ◌-◌, ◌^◌, ◌≤◌, ◌<◌, ◌≡◌, refl, sym, ap, ◌∙◌, ◌++◌, take, drop, length, Bytes, Exec,
  done, ◌>>=◌, arith, lt→ltb, le→not-ltb, length-append, length-take, length-drop, drop_all, le→leb,
  take-append-drop, take-take, >>=-assoc, >>=_congr,
}
use service_mesh_agent.Base.Words.{int_to_size_small}
use service_mesh_agent.Codec.{read_int}
use service_mesh_agent.Codec.FourBytes.{read_int_prefix}
use service_mesh_agent.Framing.{Inbox, move_up, drain}
use service_mesh_agent.Framing.Stream.{used}

pub length-used : (i : Inbox) → i.size ≤ length i.buf → length (used i) ≡ i.size
length-used i h = omega (arith, length-take i.size i.buf)

pub buf_split : (i : Inbox) → used i ++ drop i.size i.buf ≡ i.buf
buf_split i = take-append-drop i.size i.buf

-- The received bytes decide what the length field is.
pub read_used :
    (i : Inbox) (r f g : Bytes) (at : ℕ)
    → used i ++ r ≡ f ++ g
    → i.size ≤ length i.buf
    → at + 4 ≤ i.size
    → at + 4 ≤ length f
    → read_int i.buf at ≡ read_int f at
read_used i r f g at e le h₁ h₂ =
    let short : at + 4 ≤ length (used i) = omega (arith, length-used i le) in
    ap (λ b. read_int b at) (sym (buf_split i))
    ∙ (read_int_prefix (used i) (drop i.size i.buf) at short
        ∙ (sym (read_int_prefix (used i) r at short)
            ∙ (ap (λ b. read_int b at) e ∙ read_int_prefix f g at h₂)))

-- Moving the rest up keeps what is left and the size of the buffer.
pub move_up_lem :
    (f rest : Bytes) (last left : ℕ)
    → last ≡ length f
    → left ≤ length rest
    → (b : Bytes) × (move_up (f ++ rest) last left ≡ done b)
      × (take left b ≡ take left rest)
      × (length b ≡ length (f ++ rest))
unfolding move_up
move_up_lem f rest last left e h = (
  take left rest ++ drop left (f ++ rest),
  rw
      (
        e,
        le→leb (length f + left) (length (f ++ rest)) (omega (arith, length-append f rest)),
        drop_all f rest,
      )
      refl,
  take-take left rest (drop left (f ++ rest)) h,
  omega (
    arith,
    length-append (take left rest) (drop left (f ++ rest)),
    length-take left rest,
    length-drop left (f ++ rest),
    length-append f rest,
  ),
)

module _ {S : Type 0} (header length_at : ℕ) (handle : Bytes → ℕ → S → Exec (Bytes × S)) where
  pub stops_early :
      (fuel : ℕ) (i : Inbox) (s : S)
      → i.size < header
      → drain header length_at handle (suc fuel) i s ≡ done (i, s)
  unfolding drain
  stops_early fuel i s h = rw (lt→ltb i.size header h) refl

  pub stops_late :
      (fuel : ℕ) (i : Inbox) (s : S) (n : ℕ)
      → header ≤ i.size
      → read_int i.buf length_at ≡ done n
      → n + header < 2 ^ 31
      → i.size < n + header
      → drain header length_at handle (suc fuel) i s ≡ done (i, s)
  unfolding drain
  stops_late fuel i s n h e small short =
      rw
        (
          le→not-ltb i.size header h,
          e,
          ◌>>=◌,
          int_to_size_small (n + header) small,
          lt→ltb i.size (n + header) short,
        )
        refl

  pub goes_on :
      (fuel : ℕ) (i : Inbox) (s : S) (n : ℕ) (b b' : Bytes) (next : Exec S)
      → header ≤ i.size
      → read_int i.buf length_at ≡ done n
      → n + header < 2 ^ 31
      → n + header ≤ i.size
      → handle i.buf n s ≡ (next >>= λ s'. done (b, s'))
      → move_up b (n + header) (i.size - (n + header)) ≡ done b'
      → drain header length_at handle (suc fuel) i s ≡ (
          next
          >>= drain header length_at handle fuel
              (record { buf = b'; size = i.size - (n + header) }))
  unfolding drain
  goes_on fuel i s n b b' next h e small whole eh em =
      rw
        (
          le→not-ltb i.size header h,
          e,
          ◌>>=◌,
          int_to_size_small (n + header) small,
          le→not-ltb i.size (n + header) whole,
          eh,
        )
        (>>=-assoc next (λ s'. done (b, s')) _
          ∙ >>=_congr next (λ s'.
            ap
              (λ m. m >>= λ buf.
                drain header length_at handle fuel
                  (record { buf = buf; size = i.size - (n + header) }) s')
              em))
