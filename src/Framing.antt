-- ===== src/Framing.antt =====
-- The receive loop that src/provider_agent.c has twice and src/consumer_agent.c once: a buffer of
-- `max` bytes collects what libuv reads; each whole message at its front is handled and moved out.
-- The header's size, the place of the length in it and the handler are the parameters.
pub mod Stream
pub mod Rounds
pub mod Settles
pub mod Pump
pub mod Commute
use service_mesh_agent.Base.{
  ℕ, zero, suc, ◌+◌, ◌-◌, List, [], ◌∷◌, ◌++◌, ltb, if◌then◌else◌, take, drop, length, slice, write,
  Bytes, Exec, done, no_fuel, ◌>>=◌, min,
}
use service_mesh_agent.Base.Words.{u32, int_to_size}
use service_mesh_agent.Codec.{read_int}

-- A buffer with the number of bytes received into it.
pub record Inbox : Type 0 where
  pub buf : Bytes
  pub size : ℕ

-- What libuv is offered to read into: the room behind the received bytes.
abbrev pub room : ℕ → Inbox → ℕ
room max i = max - i.size

-- libuv stores the bytes that it has read behind the received ones.
unfoldable pub receive : Inbox → Bytes → Exec Inbox
receive i chunk =
    write i.buf i.size chunk >>= λ buf. done (record { buf = buf; size = i.size + length chunk })

-- memmove (buf, buf + last, size), with the size that is left.
unfoldable pub move_up : Bytes → ℕ → ℕ → Exec Bytes
move_up buf last left = slice buf last left >>= λ kept. done (kept ++ drop left buf)

-- The handler is given the whole buffer and the length field, and may write to the buffer.
module _ {S : Type 0} (header length_at : ℕ) (handle : Bytes → ℕ → S → Exec (Bytes × S)) where
  -- A length is an int: the sum may wrap, and is compared as a size_t.
  unfoldable pub drain : ℕ → Inbox → S → Exec (Inbox × S)
  drain zero i s = no_fuel
  drain (suc fuel) i s =
      if ltb i.size header
      then done (i, s)
      else (read_int i.buf length_at >>= λ n.
          let last = int_to_size (u32 (n + header)) in
          if ltb i.size last
          then done (i, s)
          else (handle i.buf n s >>= λ r. move_up r.0 last (i.size - last) >>= λ buf.
              drain fuel (record { buf = buf; size = i.size - last }) r.1))
