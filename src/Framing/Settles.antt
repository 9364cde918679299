-- ===== src/Framing/Settles.antt =====
-- The receive loop serves every message that is whole, and leaves the rest.
use service_mesh_agent.Base.{
  ℕ, zero, suc, ◌+◌, ◌-◌, ◌≤◌, ◌<◌, ◌≡◌, refl, sym, ap, ◌∙◌, List, [], ◌∷◌, ◌++◌, append_assoc,
  take, drop, length, Bytes, Exec, done, ◌>>=◌, arith, length-append, take_all, concat_map,
  append-longer, >>=-assoc, >>=_congr,
}
use native.Mathlib.Decide.{dec_lt}
use service_mesh_agent.Codec.{read_int}
use service_mesh_agent.Codec.FourBytes.{read_int_prefix}
use service_mesh_agent.Framing.{Inbox, drain}
use service_mesh_agent.Framing.Stream.{used, Handles, apply_all, IsAll, IsShort}
use service_mesh_agent.Framing.Rounds.{
  length-used, buf_split, read_used, move_up_lem, stops_early, stops_late, goes_on,
}

module _ {M S : Type 0} {header length_at max : ℕ} {handle : Bytes → ℕ → S → Exec (Bytes × S)}
    {wire : M → Bytes} {IsMessage : M → Type 0} {apply : M → S → Exec S}
    (H : Handles header length_at max handle wire IsMessage apply) where
  -- A round of the loop with a whole message at the front.
  serves_first :
      (n : ℕ) (i : Inbox) (f : M) (v : Bytes) (k : ℕ)
      → IsMessage f
      → used i ≡ wire f ++ v
      → read_int (wire f) length_at ≡ done k
      → k + header ≡ length (wire f)
      → length i.buf ≡ max
      → i.size ≤ max
      → (b : Bytes) × ((s : S)
          → drain header length_at handle (suc n) i s ≡ (
              apply f s
              >>= drain header length_at handle n
                  (record { buf = b; size = i.size - (k + header) })))
        × (take (i.size - (k + header)) b ≡ v)
        × (length b ≡ max)
  serves_first n i f v k ok eu ek el full le =
      let rest : Bytes = v ++ drop i.size i.buf in
      let buf : i.buf ≡ wire f ++ rest =
        sym (buf_split i)
        ∙ (ap (λ u. u ++ drop i.size i.buf) eu ∙ append_assoc (wire f) v (drop i.size i.buf)) in
      let same_length = ap length buf in
      let long : length v + length (wire f) ≡ i.size =
        omega (arith, length-used i (omega arith), ap length eu, length-append (wire f) v) in
      let (b, em, et, eb) =
        move_up_lem (wire f) rest (k + header) (i.size - (k + header)) el
          (omega (arith, length-append v (drop i.size i.buf))) in
      let here : read_int i.buf length_at ≡ done k =
        ap (λ u. read_int u length_at) buf
        ∙ (read_int_prefix (wire f) rest length_at (omega (arith, H.some_header, H.has_header f ok))
            ∙ ek) in
      let left : i.size - (k + header) ≡ length v = omega arith in
      (
        b,
        λ s.
            goes_on header length_at handle n i s k (wire f ++ rest) b (apply f s)
              (omega (arith, H.has_header f ok)) here (omega (arith, H.short, H.fits f ok))
              (omega arith) (ap (λ u. handle u k s) buf ∙ H.handled f rest k s ok el (omega arith))
              em,
        et ∙ (ap (λ j. take j rest) left ∙ take_all v (drop i.size i.buf)),
        omega arith,
      )

  unfoldable pub IsServed : Inbox → Bytes → List M → ℕ → Type 0
  IsServed i r fs fuel =
      (i' : Inbox) × (before : List M) × (after : List M) × ((s : S)
        → drain header length_at handle fuel i s
          ≡ (apply_all apply before s >>= λ s'. done (i', s')))
      × (fs ≡ before ++ after)
      × (used i' ++ r ≡ concat_map wire after)
      × (i'.size ≤ length i'.buf)
      × (length i'.buf ≡ max)
      × IsShort wire i'.size after

  pub drain_settles :
      (fuel : ℕ) (i : Inbox) (r : Bytes) (fs : List M)
      → used i ++ r ≡ concat_map wire fs
      → IsAll IsMessage fs
      → length i.buf ≡ max
      → i.size ≤ max
      → i.size < fuel
      → IsServed i r fs fuel
  unfolding drain IsServed IsShort IsAll
  drain_settles zero i r fs e all full le fuel = absurd (omega arith)
  drain_settles (suc n) i r [] e all full le fuel =
      let empty : i.size ≡ 0 =
        omega (arith, length-used i (omega arith), length-append (used i) r, ap length e) in
      (
        i,
        [],
        [],
        λ s. stops_early header length_at handle n i s (omega (arith, H.some_header)),
        refl,
        e,
        omega arith,
        full,
        empty,
      )
  drain_settles (suc n) i r (f ∷ fs) e all full le fuel =
      let (k, ek, el) = H.says_length f all.0 in
      let in_f : length_at + 4 ≤ length (wire f) =
        omega (arith, H.some_header, H.has_header f all.0) in
      let fits = H.fits f all.0 in
      elim (dec_lt i.size (length (wire f))) [
        | yes h ↦ (
          i,
          [],
          f ∷ fs,
          λ s. elim (dec_lt i.size header) [
            | yes early ↦ stops_early header length_at handle n i s early
            | no late ↦
                stops_late header length_at handle n i s k (omega arith)
                  (read_used i r (wire f) (concat_map wire fs) length_at e (omega arith)
                      (omega (arith, H.some_header)) in_f
                    ∙ ek)
                  (omega (arith, H.short)) (omega arith)
          ],
          refl,
          e,
          omega arith,
          full,
          h,
        )
        | no h ↦
            let (v, eu, ev) =
              append-longer (used i) r (wire f) (concat_map wire fs) e
                (omega (arith, length-used i (omega arith))) in
            let (b', step, kept, whole) = serves_first n i f v k all.0 eu ek el full le in
            let (i', before, after, ed, ef, ez, lb, lf, sh) =
              drain_settles n (record { buf = b'; size = i.size - (k + header) }) r fs
                (ap (λ u. u ++ r) kept ∙ ev) all.1 whole (omega arith)
                (omega (arith, H.some_header)) in
            (
              i',
              f ∷ before,
              after,
              λ s.
                  step s
                  ∙ (>>=_congr (apply f s) ed
                      ∙ sym (>>=-assoc (apply f s) (apply_all apply before) (λ s'. done (i', s')))),
              ap (◌∷◌ f) ef,
              ez,
              lb,
              lf,
              sh,
            )
      ]

  pub empty-IsShort : {n : ℕ} (fs : List M) → IsAll IsMessage fs → n ≡ 0 → IsShort wire n fs
  unfolding IsShort IsAll
  empty-IsShort [] all e = e
  empty-IsShort (f ∷ fs) all e = omega (arith, H.some_header, H.has_header f all.0)
