-- ===== src/Codec/Increase.antt =====
-- increase_long_by_one: a counter in memory, one byte at a time.
use service_mesh_agent.Base.{
  ◌+◌, ◌%◌, ◌^◌, ◌≡◌, refl, ap, ◌⊎◌, inr, [], ◌∷◌, arith, Bytes, length, IsBytes,
}
use service_mesh_agent.Codec.{le_value, bytes8_to_long, increase_long_by_one}
use service_mesh_agent.Codec.EightBytes.{range, le_value-lt}

increase-IsBytes :
    (bs : Bytes)
    → IsBytes bs
    → IsBytes (increase_long_by_one bs) × (length (increase_long_by_one bs) ≡ length bs)
unfolding increase_long_by_one
increase-IsBytes [] h = (tt, refl)
increase-IsBytes (b ∷ bs) h = ground (arith, increase-IsBytes bs h.1)

-- The carry leaves the last byte only where the counter was at its maximum.
increase_value :
    (bs : Bytes)
    → IsBytes bs
    → (le_value (increase_long_by_one bs) ≡ le_value bs + 1)
      ⊎ ((le_value (increase_long_by_one bs) ≡ 0) × (le_value bs + 1 ≡ range (length bs)))
unfolding increase_long_by_one le_value
increase_value [] h = inr (refl, refl)
increase_value (b ∷ bs) h = ground (arith, increase_value bs h.1)

-- The counter goes up by one, and round to 0 from its maximum; its bytes stay bytes.
pub increase_long_by_one_lem :
    (bs : Bytes)
    → IsBytes bs
    → length bs ≡ 8
    → (bytes8_to_long (increase_long_by_one bs) ≡ (bytes8_to_long bs + 1) % 2 ^ 64)
      × IsBytes (increase_long_by_one bs)
      × (length (increase_long_by_one bs) ≡ 8)
unfolding bytes8_to_long
increase_long_by_one_lem bs h e =
    let (bytes, same) = increase-IsBytes bs h in
    let top : range (length bs) ≡ 2 ^ 64 = ap range e in
    let top' : range (length (increase_long_by_one bs)) ≡ 2 ^ 64 =
      ap range {x = length (increase_long_by_one bs)} {y = 8} (omega arith) in
    (
      omega (
        arith,
        increase_value bs h,
        le_value-lt bs h,
        le_value-lt (increase_long_by_one bs) bytes,
        top,
        top',
      ),
      bytes,
      omega arith,
    )
