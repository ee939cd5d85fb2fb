-- ===== src/Connection/Header.antt =====
-- What `handle_read_header` makes of the four bytes of a packet's length.
use avrouter.Prelude.{
  ℕ, ◌+◌, ◌-◌, ◌^◌, ◌<◌, ◌≡◌, true, false, List, [], ◌∷◌, ◌++◌, Bytes, if◌then◌else◌, ltb, leb,
  u32_mod, int_mod, be32, arith,
}
use avrouter.Connection.{
  Connection, Effect, leave, notify, close_socket, read_exactly, read_body, max_packet, header_word,
  handle_read_header,
}

pub header_word-be32 : (w : ℕ) (rest : Bytes) → w < u32_mod → header_word (be32 w ++ rest) ≡ w
unfolding header_word be32
header_word-be32 w rest h = omega arith

-- What `close` leaves and calls.
abbrev pub closed : Connection → Connection
closed c = record c { abort = true }

abbrev pub closing : {M : Type 0} → List (Effect M)
closing = leave ∷ notify 1 ∷ close_socket ∷ []

module _ {M : Type 0} where
  -- A header that arrives on a live connection closes it if the length is between 64 KiB + 1 and
  -- 2 ^ 31 - 1. Up to 64 KiB so many bytes are read next. From 2 ^ 31 on the `int` is negative and
  -- passes the test, and the read is for 2 ^ 64 - 2 ^ 32 bytes more than the header says.
  pub header_outcome :
      (c : Connection) (w : ℕ) (rest : Bytes)
      → w < u32_mod
      → c.abort ≡ false
      → c.response ≡ be32 w ++ rest
      → handle_read_header {M = M} false c ≡ (
          if leb w max_packet
          then (c, read_exactly read_body w ∷ [])
          else if ltb w int_mod
          then (closed c, closing)
          else (c, read_exactly read_body (w + (2 ^ 64 - 2 ^ 32)) ∷ []))
  unfolding handle_read_header
  header_outcome c w rest h live e = rw (live, e, header_word-be32 w rest h) (ground arith)
