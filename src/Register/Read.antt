-- ===== src/Register/Read.antt =====
-- Reading an answer of the authority.
use avrouter.Prelude.{
  ◌+◌, ◌≡◌, ◌≢◌, ◌<◌, sym, ap, ◌∙◌, false, [], ◌++◌, append_assoc, some, Bytes, length,
  length-append, take_prefix, drop_prefix, ok, leb, ltb, be32, read_be32, read_be32-be32,
  length-be32, arith,
}
use avrouter.Serialization.{Protobuf, encode}
use avrouter.Serialization.Layout.{encode-frame}
use avrouter.Serialization.RoundTrip.{IsRegistered, decode-encode}
use avrouter.Register.{async_read_protobuf_message}

module _ (pb : Protobuf) where
  -- A message that the peer has encoded is read, whatever comes behind it, if it has a body and its
  -- packet is smaller than 10000 bytes.
  pub async_read_protobuf_message-encode :
      (m : pb.Message) (body rest : Bytes)
      → IsRegistered pb m body
      → body ≢ []
      → 4 + length (pb.type_name m) + length body < 10000
      → async_read_protobuf_message pb (encode pb m ++ rest) ≡ ok (some m, rest)
  unfolding async_read_protobuf_message
  async_read_protobuf_message-encode m body rest r ne h =
      let name = pb.type_name m in
      let payload = be32 (length name) ++ (name ++ body) in
      let size : length payload ≡ 4 + length (name ++ body) =
        omega (
          arith,
          length-append {0} (be32 (length name)) (name ++ body),
          length-be32 (length name),
        ) in
      let all : length (name ++ body) ≡ length name + length body = length-append name body in
      let whole : encode pb m ≡ be32 (length payload) ++ payload =
        encode-frame pb m body r.serializes r.fits ∙ rw size in
      let total : length (encode pb m) ≡ length payload + 4 =
        ap length whole
        ∙ omega (
          arith,
          length-append {0} (be32 (length payload)) payload,
          length-be32 (length payload),
        ) in
      let field : read_be32 (encode pb m ++ rest) ≡ some (length payload) =
        ap (λ bs. read_be32 (bs ++ rest)) whole
        ∙ ap read_be32 (append_assoc (be32 (length payload)) payload rest)
        ∙ read_be32-be32 (length payload) (payload ++ rest) (omega (arith, size, all)) in
      let small : leb 10000 (length payload) ≡ false = ground (arith, size, all, h) in
      let here : ltb (length (encode pb m ++ rest)) (length payload + 4) ≡ false =
        ground (arith, length-append (encode pb m) rest, total) in
      rw (
        async_read_protobuf_message,
        field,
        small,
        here,
        take_prefix (encode pb m) rest (length payload + 4) (sym total),
        drop_prefix (encode pb m) rest (length payload + 4) (sym total),
        decode-encode pb m body r ne,
      )
