-- ===== src/Connection.antt =====
-- src/connection.cpp: a client's connection. A handler takes what asio hands it and gives the new
-- connection and its effects in the order of its calls; asio itself, the socket and the router
-- answer to the effects. `m_module_private_info_ptrs` is in `ModulePrivate`.
pub mod Header
pub mod WriteQueue
pub mod Drain
pub mod Stream
pub mod Delivery
use avrouter.Prelude.{
  ℕ, ◌+◌, ◌-◌, ◌*◌, ◌%◌, ◌^◌, Bool, true, false, ◌||◌, ◌&&◌, not, List, [], ◌∷◌, ◌++◌, Option, none,
  some, Bytes, length, take, drop, replicate, if◌then◌else◌, leb, ltb, Run, ok, fault,
  empty_container, length_error, ◌>>=◌, to_size_t, is_negative, to_int32, word,
}
use avrouter.Serialization.{Protobuf, decode}

-- The handler that a read is started for.
pub data Reading : Type 0 where
  read_header read_body : Reading

-- The calls that a connection makes of others, with the messages of type `M`.
pub data Effect (M : Type 0) : Type 0 where
  -- `m_socket.set_option(tcp::no_delay(true))`
  no_delay : Effect M
  -- `m_server.do_connection_notify(type, this)`
  notify : ℕ → Effect M
  -- `async_read(m_socket, m_response, transfer_exactly(n), handler)`
  read_exactly : Reading → ℕ → Effect M
  -- `async_write` of these bytes, with `handle_write` as its handler
  write : Bytes → Effect M
  -- `m_io_service.post(do_write)`
  post_write : Bytes → Effect M
  -- `m_server.do_message(msg, this)`
  deliver : M → Effect M
  -- the manager takes the connection out of its set
  leave : Effect M
  -- `m_socket.close`
  close_socket : Effect M

-- `m_response` holds the bytes read and not yet consumed.
pub record Connection : Type 0 where
  pub response : Bytes
  pub write_queue : List Bytes
  pub abort : Bool

-- `connection::connection`.
abbrev pub new_connection : Connection
new_connection = record { response = []; write_queue = []; abort = false }

-- The largest packet that is read.
abbrev pub max_packet : ℕ
max_packet = 64 * 1024

-- `sgetn` of four bytes into an `int` that was 0, and `ntohl`.
unfoldable pub header_word : Bytes → ℕ
header_word (a ∷ b ∷ c ∷ d ∷ rest) = word a b c d
header_word (a ∷ b ∷ c ∷ []) = word a b c 0
header_word (a ∷ b ∷ []) = word a b 0 0
header_word (a ∷ []) = word a 0 0 0
header_word [] = 0

abbrev pub is_empty : List Bytes → Bool
is_empty [] = true
is_empty (msg ∷ rest) = false

module _ {M : Type 0} where
  unfoldable pub start : Connection → Connection × List (Effect M)
  start c = (
    record c { response = []; abort = false },
    no_delay ∷ notify 0 ∷ read_exactly read_header 4 ∷ [],
  )

  unfoldable pub stop : Connection → Connection × List (Effect M)
  stop c = (record c { abort = true }, notify 1 ∷ close_socket ∷ [])

  -- `m_connection_manager->stop(shared_from_this())`: out of the set, then `stop`.
  unfoldable pub close : Connection → Connection × List (Effect M)
  unfolding stop
  close c = let (c', effects) = stop c in (c', leave ∷ effects)

  -- The comparison with the limit is one of two `int`s, the size of the read a `size_t`.
  unfoldable pub read_packet : ℕ → Connection → Connection × List (Effect M)
  unfolding close
  read_packet packet_length c =
      if not (is_negative packet_length) && ltb max_packet packet_length
      then close c
      else (c, read_exactly read_body (to_size_t packet_length) ∷ [])

  unfoldable pub handle_read_header : Bool → Connection → Connection × List (Effect M)
  unfolding close read_packet
  handle_read_header error c =
      if error || c.abort then close c else read_packet (header_word c.response) c

  unfoldable pub write_msg : Bytes → Connection → Connection × List (Effect M)
  write_msg msg c = (c, post_write msg ∷ [])

  -- `async_write` of the front of the queue, if there is one.
  abbrev pub write_front : List Bytes → List (Effect M)
  write_front [] = []
  write_front (msg ∷ rest) = write msg ∷ []

  unfoldable pub do_write : Bytes → Connection → Connection × List (Effect M)
  do_write msg c =
      let write_in_progress = not (is_empty c.write_queue) in
      let queue = c.write_queue ++ msg ∷ [] in
      (record c { write_queue = queue }, if write_in_progress then [] else write_front queue)

  pop_written : Connection → List Bytes → Run (Connection × List (Effect M))
  pop_written c [] = fault empty_container
  pop_written c (msg ∷ rest) = ok (record c { write_queue = rest }, write_front rest)

  unfoldable pub handle_write : Bool → Connection → Run (Connection × List (Effect M))
  unfolding close pop_written
  handle_write error c = if error then ok (close c) else pop_written c c.write_queue

-- `message` as `sgetn` fills it, with zeros where the buffer is short.
abbrev pub take_message : ℕ → Bytes → Bytes
take_message n response = take n response ++ replicate (n - length response) 0

module _ (pb : Protobuf) where
  after_decode : Connection → Option pb.Message → Connection × List (Effect pb.Message)
  unfolding close
  after_decode c none = close c
  after_decode c (some msg) = (c, deliver msg ∷ read_exactly read_header 4 ∷ [])

  -- `resize` throws on a negative length. `sgetn` and `consume` both take the packet off the
  -- buffer.
  unfoldable pub handle_read_body :
      Bool → ℕ → Connection → Run (Connection × List (Effect pb.Message))
  unfolding close after_decode
  handle_read_body error bytes_transferred c =
      let packet_length = to_int32 (bytes_transferred + 4) in
      let taken = record c { response = drop packet_length (drop packet_length c.response) } in
      let handled =
        decode pb (take_message packet_length c.response) >>= λ msg. ok (after_decode taken msg) in
      if error || c.abort
      then ok (close c)
      else if is_negative packet_length
      then fault length_error
      else handled
