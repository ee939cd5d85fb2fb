-- ===== src/Connection/Delivery.antt =====
-- From the sender's `encode` to the router's `do_message`: whole packets one after the other on a
-- stream, and the packets that a connection does not survive.
use avrouter.Prelude.{
  ℕ, suc, ◌+◌, ◌*◌, ◌≤◌, ◌<◌, ◌≡◌, ◌≢◌, refl, sym, ap, ◌∙◌, List, [], ◌∷◌, ◌++◌, append_assoc,
  append-nil, out_of_bounds, bad_range, read_be32, if◌then◌else◌, ltb, take, drop, int_mod, u32_mod,
  none, some, Bytes, ok, fault, ◌>>=◌, arith, length, be32, length-be32, length-append, All,
}
use avrouter.Serialization.{Protobuf, encode, decode}
use avrouter.Serialization.Layout.{packet, encode-frame}
use avrouter.Serialization.Outcome.{decode_content, decode_outcome}
use avrouter.Serialization.RoundTrip.{IsRegistered, decode-encode}
use avrouter.Connection.{max_packet}
use avrouter.Connection.Stream.{pump, ready, received, pump-packet}

module _ (pb : Protobuf) where
  -- What a sender writes for these messages.
  unfoldable pub stream : List pb.Message → Bytes
  stream [] = []
  stream (m ∷ ms) = encode pb m ++ stream ms

  -- A message whose packet is read: protobuf knows it, its body is not empty, and the packet
  -- without its first four bytes is of at most 64 KiB.
  pub record IsSendable (m : pb.Message) : Type 0 where
    pub body : Bytes
    pub registered : IsRegistered pb m body
    pub nonempty : body ≢ []
    pub small : 4 + length (pb.type_name m) + length body ≤ max_packet

  pump-encode :
      (k : ℕ) (queue : List Bytes) (ms : List pb.Message) (m : pb.Message) (rest : Bytes)
      → IsSendable m
      → pump pb (suc (suc k)) (ready pb queue ms) (encode pb m ++ rest)
        ≡ pump pb k (ready pb queue (ms ++ m ∷ [])) rest
  pump-encode k queue ms m rest s =
      let name = pb.type_name m in
      let payload = be32 (length name) ++ (name ++ s.body) in
      let size : length payload ≡ 4 + length (name ++ s.body) = omega (
        arith,
        length-append {0} (be32 (length name)) (name ++ s.body),
        length-be32 (length name),
      ) in
      let whole : encode pb m ≡ be32 (length payload) ++ payload =
        encode-frame pb m s.body s.registered.serializes s.registered.fits ∙ rw size in
      let decoded : decode pb (be32 (length payload) ++ payload) ≡ ok (some m) =
        ap (decode pb) (sym whole) ∙ decode-encode pb m s.body s.registered s.nonempty in
      rw (
        whole,
        append_assoc,
        pump-packet pb k queue ms payload rest
            (omega (arith, length-append {0} name s.body, s.small)),
        decoded,
      )

  -- The packets of messages that can be sent, one after the other on a stream, are handed to the
  -- router as the same messages in the same order, with two reads for each; then the connection
  -- waits for the next packet, with its buffer empty.
  pub pump-stream :
      (queue : List Bytes) (before ms : List pb.Message)
      → All IsSendable ms
      → pump pb (2 * length ms) (ready pb queue before) (stream ms)
        ≡ ok (ready pb queue (before ++ ms), [])
  unfolding pump stream
  pump-stream queue before [] h = rw append-nil
  pump-stream queue before (m ∷ ms) (s, h) =
      let twice : 2 * suc (length ms) ≡ suc (suc (2 * length ms)) = omega arith in
      rw (twice, pump-encode (2 * length ms) queue before m (stream ms) s)
        (pump-stream queue (before ++ m ∷ []) ms h ∙ rw append_assoc)

  decode_short :
      (payload : Bytes)
      → length payload < 3
      → decode pb (be32 (length payload) ++ payload) ≡ fault out_of_bounds
  unfolding decode be32 read_be32
  decode_short [] h = refl
  decode_short (a ∷ []) h = refl
  decode_short (a ∷ b ∷ []) h = refl
  decode_short (a ∷ b ∷ c ∷ payload) h = absurd (omega arith)

  -- A packet that says it has two bytes or less reaches `decode`, which reads the length of the
  -- name outside the bytes that have come.
  pub pump-short :
      (k : ℕ) (queue : List Bytes) (before : List pb.Message) (payload rest : Bytes)
      → length payload < 3
      → pump pb (suc (suc k)) (ready pb queue before) (be32 (length payload) ++ (payload ++ rest))
        ≡ fault out_of_bounds
  pump-short k queue before payload rest h =
      rw (pump-packet pb k queue before payload rest (omega arith), decode_short payload h)

  -- What becomes of a connection between two packets when a packet of four bytes to 64 KiB comes in
  -- that says its name has `w` bytes. If content is left behind the name, protobuf decides: the
  -- message goes to the router, or the connection is closed. If none is left, the connection is
  -- closed. From 2 ^ 31 on the length is negative, passes the test and gives a range that ends
  -- before it begins.
  pub pump_outcome :
      (k : ℕ) (queue : List Bytes) (before : List pb.Message) (w : ℕ) (content rest : Bytes)
      → w < u32_mod
      → 4 + length content ≤ max_packet
      → pump pb (suc (suc k)) (ready pb queue before) (packet w content ++ rest) ≡ (
          if ltb w (length content)
          then pump pb k
              (received pb queue before (decode_content pb (take w content) (drop w content)))
              rest
          else if ltb w int_mod
          then pump pb k (received pb queue before none) rest
          else fault bad_range)
  pump_outcome k queue before w content rest h small =
      let size : 4 + length content ≡ length (be32 w ++ content) =
        omega (arith, length-append {0} (be32 w) content, length-be32 w) in
      let step : pump pb (suc (suc k)) (ready pb queue before) (packet w content ++ rest) ≡ (
          decode pb (packet w content) >>= λ msg. pump pb k (received pb queue before msg) rest) =
        rw (size, append_assoc)
          (pump-packet pb k queue before (be32 w ++ content) rest (omega arith)) in
      rw (step, decode_outcome pb w content h (omega arith)) (ground arith)
