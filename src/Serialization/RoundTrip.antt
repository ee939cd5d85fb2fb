-- ===== src/Serialization/RoundTrip.antt =====
-- `decode` after `encode`: what comes back, and which messages do not come back.
use avrouter.Prelude.{
  ◌+◌, ◌<◌, ◌≡◌, ◌≢◌, ◌∙◌, [], some, none, Bytes, length, arith, ok, int_mod, if◌then◌else◌, ltb,
  lt→ltb, length-append, take_prefix, drop_prefix, append-nil, refl, true, ◌++◌, ◌∷◌,
}
use avrouter.Serialization.{Protobuf, create_message, encode, decode}
use avrouter.Serialization.Layout.{frame, encode-frame}
use avrouter.Serialization.Outcome.{decode_content, decode_outcome}

-- What protobuf documents of a message of a generated class: it serialises, its type is found by
-- name, and parsing its bytes into a new message of that type gives an equal message.
pub record IsRegistered (pb : Protobuf) (m : pb.Message) (body : Bytes) : Type 0 where
  pub created : pb.Message
  pub serializes : pb.serialize m ≡ some body
  pub creates : create_message pb (pb.type_name m) ≡ some created
  pub parses : pb.parse created body ≡ some m
  -- the packet is smaller than 2 ^ 31 bytes
  pub fits : 8 + length (pb.type_name m) + length body < int_mod

module _ (pb : Protobuf) where
  decode-frame :
      (name body : Bytes)
      → 8 + length name + length body < int_mod
      → decode pb (frame name body) ≡ (
          if ltb (length name) (length (name ++ body))
          then ok (decode_content pb name body)
          else ok none)
  decode-frame name body h = ground (
    arith,
    decode_outcome pb (length name) (name ++ body),
    length-append name body,
    take_prefix name body (length name) refl,
    drop_prefix name body (length name) refl,
  )

module _ (pb : Protobuf) (m : pb.Message) where
  -- A registered message whose serialised body is not empty is decoded to itself.
  pub decode-encode :
      (body : Bytes) → IsRegistered pb m body → body ≢ [] → decode pb (encode pb m) ≡ ok (some m)
  decode-encode [] r ne = absurd (ne refl)
  decode-encode (c ∷ cs) r ne =
      let name = pb.type_name m in
      let longer : ltb (length name) (length (name ++ (c ∷ cs))) ≡ true =
        lt→ltb _ _ (omega (arith, length-append {0} name (c ∷ cs))) in
      rw (
        encode-frame pb m (c ∷ cs) r.serializes r.fits,
        decode-frame pb name (c ∷ cs) r.fits,
        longer,
        r.creates,
        r.parses,
      )

  -- A registered message whose serialised body is empty is encoded to a packet that `decode`
  -- refuses: the test on the name's length wants at least one byte behind the name.
  pub decode-encode_empty : IsRegistered pb m [] → decode pb (encode pb m) ≡ ok none
  decode-encode_empty r =
      let name = pb.type_name m in
      rw (encode-frame pb m [] r.serializes r.fits, append-nil)
        (decode_outcome pb (length name) name (omega (arith, r.fits)) (omega (arith, r.fits))
          ∙ ground arith)

  -- A message that protobuf cannot serialise is encoded to the empty string.
  encode_failed : pb.serialize m ≡ none → encode pb m ≡ []
  unfolding encode
  encode_failed e = rw (e, encode)
