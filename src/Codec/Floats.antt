-- ===== src/Codec/Floats.antt =====
-- src/utils/utils.c, packFloat and unpackFloat. A float is its 32-bit pattern; the host is x86-64.
use service_mesh_agent.Base.{
  ℕ, ◌^◌, ◌≤◌, ◌<◌, ◌≡◌, ap, ◌∙◌, [], Bytes, length, drop, Exec, done, ◌>>=◌, slice, write, le→leb,
  slice_of_append,
}
use service_mesh_agent.Codec.{le_bytes, le_value}
use service_mesh_agent.Codec.EightBytes.{le_value-le_bytes}

-- The number of bytes is returned with the buffer.
unfoldable pub pack_float : Bytes → ℕ → Exec (ℕ × Bytes)
pack_float buf x = write buf 0 (le_bytes 4 x) >>= λ buf. done (4, buf)

unfoldable pub unpack_float : Bytes → Exec ℕ
unpack_float buf = slice buf 0 4 >>= λ bytes. done (le_value bytes)

-- A float that is packed into a buffer with room for it is unpacked as itself.
pub unpack_float-pack_float :
    (buf : Bytes) (x : ℕ)
    → x < 2 ^ 32
    → 4 ≤ length buf
    → (pack_float buf x >>= λ r. unpack_float r.1) ≡ done x
unfolding pack_float unpack_float le_bytes
unpack_float-pack_float buf x lt room =
    let bytes = le_bytes 4 x in
    let left = drop 4 buf in
    rw (le→leb 4 (length buf) room, ◌>>=◌)
      (ap (λ m. m >>= λ bytes. done (le_value bytes)) (slice_of_append [] bytes left)
        ∙ ap done (le_value-le_bytes 4 x lt))
