-- ===== src/Connection/Stream.antt =====
-- The incoming side of a connection on a stream of bytes. asio completes an `async_read(...,
-- transfer_exactly(n), handler)` once n bytes have arrived: they are in the buffer, the next bytes
-- stay in the socket, and the handler is called with no error.
use avrouter.Prelude.{
  ℕ, zero, suc, ◌+◌, ◌-◌, ◌≤◌, ◌≡◌, refl, sym, ap, true, false, List, [], ◌∷◌, ◌++◌, append-nil,
  Option, none, some, Bytes, if◌then◌else◌, ltb, leb, Run, ok, ◌>>=◌, >>=-ok, arith, length, take,
  drop, be32, length-be32, length-append, take_prefix, drop_prefix, take_all, to_int32, int_mod,
  drop-nil, drop_all,
}
use avrouter.Serialization.{Protobuf, decode}
use avrouter.Connection.{
  Connection, Reading, read_header, read_body, Effect, read_exactly, deliver, max_packet,
  take_message, handle_read_header, handle_read_body, after_decode,
}
use avrouter.Connection.Header.{header_outcome}

module _ (pb : Protobuf) where
  -- `pending` is the read that asio works on, `delivered` what went to the router, oldest first.
  pub record Reader : Type 0 where
    pub connection : Connection
    pub pending : Option (Reading × ℕ)
    pub delivered : List pb.Message

  abbrev pub perform : Reader → List (Effect pb.Message) → Reader
  perform r [] = r
  perform r (read_exactly reading n ∷ es) = perform (record r { pending = some (reading, n) }) es
  perform r (deliver msg ∷ es) = perform (record r { delivered = r.delivered ++ msg ∷ [] }) es
  perform r (_ ∷ es) = perform r es

  abbrev pub settled : Reader → Connection × List (Effect pb.Message) → Reader
  settled r (c, es) = perform (record r { connection = c; pending = none }) es

  abbrev pub arrive : Connection → Bytes → Connection
  arrive c bytes = record c { response = c.response ++ bytes }

  -- A read completes with these bytes.
  complete : Reader → Reading → Bytes → Run Reader
  complete r read_header bytes =
      ok (settled r (handle_read_header false (arrive r.connection bytes)))
  complete r read_body bytes = do
    handled ← handle_read_body pb false (length bytes) (arrive r.connection bytes)
    ok (settled r handled)

  -- At most so many reads complete, as long as the bytes that have arrived are enough.
  unfoldable pub pump : ℕ → Reader → Bytes → Run (Reader × Bytes)
  unfolding complete
  pump zero r input = ok (r, input)
  pump (suc k) r input = elim r.pending [
    | none ↦ ok (r, input)
    | some (reading, n) ↦
        let go = complete r reading (take n input) >>= λ r'. pump k r' (drop n input) in
        if ltb (length input) n then ok (r, input) else go
  ]

  -- A live connection between two packets: it waits for four bytes, and its buffer is empty.
  abbrev pub ready : List Bytes → List pb.Message → Reader
  ready queue delivered = record {
    connection = record { response = []; write_queue = queue; abort = false };
    pending = some (read_header, 4);
    delivered = delivered;
  }

  -- What one packet makes of such a connection: the message goes to the router, or, if there is
  -- none in it, the connection is closed.
  abbrev pub received : List Bytes → List pb.Message → Option pb.Message → Reader
  received queue delivered (some msg) = ready queue (delivered ++ msg ∷ [])
  received queue delivered none = record {
    connection = record { response = []; write_queue = queue; abort = true };
    pending = none;
    delivered = delivered;
  }

  pump_read :
      (k : ℕ) (r : Reader) (reading : Reading) (n : ℕ) (bytes rest : Bytes)
      → n ≡ length bytes
      → pump (suc k) (record r { pending = some (reading, n) }) (bytes ++ rest) ≡ (
          complete (record r { pending = some (reading, n) }) reading bytes >>= λ r'.
          pump k r' rest)
  unfolding pump
  pump_read k r reading n bytes rest e =
      let enough : ltb (length (bytes ++ rest)) n ≡ false =
        ground (arith, length-append bytes rest) in
      rw (enough, take_prefix bytes rest n e, drop_prefix bytes rest n e)

  complete_header :
      (queue : List Bytes) (ms : List pb.Message) (w : ℕ)
      → w ≤ max_packet
      → complete (ready queue ms) read_header (be32 w)
        ≡ ok (record (ready queue ms) {
          connection = record { response = be32 w; write_queue = queue; abort = false };
          pending = some (read_body, w);
        })
  unfolding complete
  complete_header queue ms w h =
      let c : Connection = record { response = be32 w; write_queue = queue; abort = false } in
      rw (header_outcome {M = pb.Message} c w [] (omega arith) refl (rw append-nil)) (ground arith)

  settled-after_decode :
      (queue : List Bytes) (ms : List pb.Message) (p : Option (Reading × ℕ))
      (msg : Option pb.Message)
      → settled
          (record {
            connection = record { response = []; write_queue = queue; abort = false };
            pending = p;
            delivered = ms;
          })
          (after_decode pb (record { response = []; write_queue = queue; abort = false }) msg)
        ≡ received queue ms msg
  unfolding after_decode
  settled-after_decode queue ms p none = refl
  settled-after_decode queue ms p (some msg) = refl

  -- `handle_read_body` on a whole packet decodes just that packet, and empties the buffer.
  handle_read_body-whole :
      (c : Connection) (n : ℕ)
      → c.abort ≡ false
      → length c.response ≡ n + 4
      → n ≤ max_packet
      → handle_read_body pb false n c
        ≡ (decode pb c.response >>= λ msg. ok (after_decode pb (record c { response = [] }) msg))
  unfolding handle_read_body
  handle_read_body-whole c n live e h =
      let m : to_int32 (n + 4) ≡ length c.response = omega arith in
      let zero_pad : length c.response - length c.response ≡ 0 = omega arith in
      let whole : take_message (length c.response) c.response ≡ c.response =
        rw (take_all (length c.response) c.response (omega arith), zero_pad)
          (append-nil c.response) in
      let none_left : drop (length c.response) (drop (length c.response) c.response) ≡ [] =
        rw (drop_all c.response) (drop-nil (length c.response)) in
      let small : leb int_mod (length c.response) ≡ false = ground arith in
      rw (live, m, whole, none_left, small)

  complete_body :
      (queue : List Bytes) (ms : List pb.Message) (payload : Bytes)
      → length payload ≤ max_packet
      → complete
          (record (ready queue ms) {
            connection = record {
              response = be32 (length payload);
              write_queue = queue;
              abort = false;
            };
            pending = some (read_body, length payload);
          })
          read_body
          payload
        ≡ (decode pb (be32 (length payload) ++ payload) >>= λ msg. ok (received queue ms msg))
  unfolding complete
  complete_body queue ms payload h =
      let c : Connection = record {
        response = be32 (length payload) ++ payload;
        write_queue = queue;
        abort = false;
      } in
      let size : length c.response ≡ length payload + 4 =
        omega (
          arith,
          length-append {0} (be32 (length payload)) payload,
          length-be32 (length payload),
        ) in
      rw (handle_read_body-whole c (length payload) refl size h) (
        >>=-ok (decode pb (be32 (length payload) ++ payload)) _ _ _
          (λ msg. ap ok (settled-after_decode queue ms (some (read_body, length payload)) msg)))

  -- A whole packet of at most 64 KiB on a connection between two packets is decoded, and is all
  -- that is decoded, whatever bytes come after it.
  pub pump-packet :
      (k : ℕ) (queue : List Bytes) (ms : List pb.Message) (payload rest : Bytes)
      → length payload ≤ max_packet
      → pump (suc (suc k)) (ready queue ms) (be32 (length payload) ++ (payload ++ rest)) ≡ (
          decode pb (be32 (length payload) ++ payload) >>= λ msg.
          pump k (received queue ms msg) rest)
  pump-packet k queue ms payload rest h =
      rw
        (
          pump_read (suc k) (ready queue ms) read_header 4 (be32 (length payload)) (payload ++ rest)
              (sym (length-be32 (length payload))),
          complete_header queue ms (length payload) h,
          pump_read k
              (record (ready queue ms) {
                connection = record {
                  response = be32 (length payload);
                  write_queue = queue;
                  abort = false;
                };
              })
              read_body (length payload) payload rest refl,
          complete_body queue ms payload h,
        )
        (>>=-ok (decode pb (be32 (length payload) ++ payload)) _ _ _ (λ msg. refl))
