-- ===== src/Serialization/Layout.antt =====
-- The shape of an encoded packet.
use avrouter.Prelude.{
  ℕ, ◌+◌, ◌%◌, ◌<◌, ◌≡◌, ◌∙◌, ◌++◌, some, Bytes, length, replicate, u32_mod, sub32, length-append,
  take_all, append_assoc, arith, be32, length-be32, int_mod, suc,
}
use avrouter.Serialization.{Protobuf, encode_name, back_fill, encode}

-- A packet length that fits what follows, a name length, and the rest.
abbrev pub packet : ℕ → Bytes → Bytes
packet name_len rest = be32 (4 + length rest) ++ (be32 name_len ++ rest)

-- Packet length, name length, name, message.
abbrev pub frame : Bytes → Bytes → Bytes
frame name body = packet (length name) (name ++ body)

pub length-packet : (w : ℕ) (rest : Bytes) → length (packet w rest) ≡ 8 + length rest
length-packet w rest = omega (
  arith,
  length-append {0} (be32 (4 + length rest)) (be32 w ++ rest),
  length-append {0} (be32 w) rest,
  length-be32 (4 + length rest),
  length-be32 w,
)

-- `encode_name` is exact below 2 ^ 32 bytes: nothing of the length or of the name is cut off.
encode_name-small :
    (name : Bytes)
    → length name < int_mod
    → encode_name name ≡ replicate 4 0 ++ (be32 (length name) ++ name)
unfolding encode_name
encode_name-small name h =
    let e : length name % u32_mod ≡ length name = omega arith in
    rw (e, take_all (length name) name (omega arith))

back_fill-zeros :
    (rest : Bytes)
    → 4 + length rest < int_mod
    → back_fill (replicate 4 0 ++ rest) ≡ be32 (length rest) ++ rest
unfolding back_fill
back_fill-zeros rest h =
    let e : sub32 ((4 + length rest) % u32_mod) 4 ≡ length rest = omega arith in
    let f : suc (suc (suc (suc (length rest)))) ≡ 4 + length rest = omega arith in rw (f, e)

encode_step :
    (pb : Protobuf) (m : pb.Message) (body : Bytes)
    → pb.serialize m ≡ some body
    → encode pb m ≡ back_fill (encode_name (pb.type_name m) ++ body)
unfolding encode
encode_step pb m body e = rw (e, encode)

-- An encoded message has this shape, as long as its size fits an `int`.
pub encode-frame :
    (pb : Protobuf) (m : pb.Message) (body : Bytes)
    → pb.serialize m ≡ some body
    → 8 + length (pb.type_name m) + length body < int_mod
    → encode pb m ≡ frame (pb.type_name m) body
encode-frame pb m body e h =
    let name = pb.type_name m in
    let rest = be32 (length name) ++ (name ++ body) in
    let size : length rest ≡ 4 + length (name ++ body) =
      omega
        (arith, length-append {0} (be32 (length name)) (name ++ body), length-be32 (length name)) in
    encode_step pb m body e
    ∙ rw (encode_name-small name (omega arith), append_assoc, append_assoc)
        (rw (back_fill-zeros rest (omega (arith, length-append {0} name body)), size))
