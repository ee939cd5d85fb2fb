-- ===== src/Tests/Serialization.antt =====
-- The packet codec on a small stand-in for protobuf.
use avrouter.Prelude.{
  ℕ, ◌-◌, ◌^◌, ◌<◌, ◌≡◌, refl, [], ◌∷◌, some, none, Bytes, codes, length, take, drop, arith, ok,
  fault, bad_range, out_of_bounds, read_be32, be32,
}
use avrouter.Serialization.{Protobuf, create_message, encode, decode}
use avrouter.Serialization.Layout.{packet}
use avrouter.Serialization.Outcome.{decode_content, decode_outcome, decode_sound}
use avrouter.Serialization.RoundTrip.{IsRegistered, decode-encode, decode-encode_empty}

-- A message is its type's name and its bytes; every type is known.
abbrev pub plain : Protobuf
plain = record {
  Message = Bytes × Bytes;
  Descriptor = Bytes;
  type_name = λ m. m.0;
  serialize = λ m. some m.1;
  find_descriptor = λ name. some name;
  get_prototype = λ name. some (name, []);
  new_message = λ m. m;
  parse = λ m body. some (m.0, body);
}

abbrev pub hello : plain.Message
hello = (codes "ab", 7 ∷ 8 ∷ [])

abbrev nothing : plain.Message
nothing = (codes "ab", [])

encode-hello : encode plain hello ≡ 0 ∷ 0 ∷ 0 ∷ 8 ∷ 0 ∷ 0 ∷ 0 ∷ 2 ∷ b'a' ∷ b'b' ∷ 7 ∷ 8 ∷ []
unfolding encode be32
encode-hello = refl

pub hello-IsRegistered : IsRegistered plain hello (7 ∷ 8 ∷ [])
unfolding create_message
hello-IsRegistered = record {
  created = (codes "ab", []);
  serializes = refl;
  creates = refl;
  parses = refl;
  fits = omega arith;
}

nothing-IsRegistered : IsRegistered plain nothing []
unfolding create_message
nothing-IsRegistered = record {
  created = (codes "ab", []);
  serializes = refl;
  creates = refl;
  parses = refl;
  fits = omega arith;
}

-- Four zero bytes: the packet length is right, and the name's length lies outside the buffer.
decode_zeros : decode plain (0 ∷ 0 ∷ 0 ∷ 0 ∷ []) ≡ fault out_of_bounds
unfolding decode read_be32
decode_zeros = refl

-- A name length of -1.
decode_negative : decode plain (0 ∷ 0 ∷ 0 ∷ 5 ∷ 255 ∷ 255 ∷ 255 ∷ 255 ∷ 1 ∷ []) ≡ fault bad_range
unfolding decode read_be32
decode_negative = refl

decode-encode_example : decode plain (encode plain hello) ≡ ok (some hello)
decode-encode_example = decode-encode plain hello (7 ∷ 8 ∷ []) hello-IsRegistered (cc)

decode-encode_empty_example : decode plain (encode plain nothing) ≡ ok none
decode-encode_empty_example = decode-encode_empty plain nothing nothing-IsRegistered

decode_outcome_example : decode plain (packet (2 ^ 32 - 1) (1 ∷ [])) ≡ fault bad_range
decode_outcome_example = decode_outcome plain (2 ^ 32 - 1) (1 ∷ []) (omega arith) (omega arith)

abbrev hello_bytes : Bytes
hello_bytes = 0 ∷ 0 ∷ 0 ∷ 8 ∷ 0 ∷ 0 ∷ 0 ∷ 2 ∷ b'a' ∷ b'b' ∷ 7 ∷ 8 ∷ []

decode-hello_bytes : decode plain hello_bytes ≡ ok (some hello)
unfolding decode read_be32
decode-hello_bytes = refl

decode_sound_example :
    (w : ℕ) × (rest : Bytes) × (hello_bytes ≡ packet w rest)
    × (w < length rest)
    × (decode_content plain (take w rest) (drop w rest) ≡ some hello)
decode_sound_example =
    decode_sound plain hello_bytes hello (omega arith) (omega arith) decode-hello_bytes
