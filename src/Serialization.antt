-- ===== src/Serialization.antt =====
-- include/serialization.hpp: `create_message`, `encode` and `decode`, built without the asserts of
-- a debug build. The protobuf runtime and the generated classes are the parameter `Protobuf`.
-- Sizes are as `std::string` has them; the casts to int32_t are written out.
pub mod Layout
pub mod RoundTrip
pub mod Outcome
use avrouter.Prelude.{
  ℕ, ◌+◌, ◌≡◌, ◌++◌, [], ◌∷◌, Option, none, some, not, Bytes, length, take, drop, replicate, ◌==◌,
  if◌then◌else◌, Run, ok, fault, out_of_bounds, bad_range, ◌>>=◌, be32, read_be32, to_int32, add32,
  sub32, is_negative, signed_leb,
}

-- What the code uses of protobuf: the name of a message's type, its serialised bytes (`none` where
-- `AppendToString` fails, such as on a missing required field), the descriptors of the generated
-- pool, their prototypes, a new message of a prototype, and `ParseFromArray` into a message.
pub record Protobuf : Type 1 where
  pub Message : Type 0
  pub Descriptor : Type 0
  pub type_name : Message → Bytes
  pub serialize : Message → Option Bytes
  pub find_descriptor : Bytes → Option Descriptor
  pub get_prototype : Descriptor → Option Message
  pub new_message : Message → Message
  pub parse : Message → Bytes → Option Message

-- sizeof(boost::int32_t)
abbrev pub header_len : ℕ
header_len = 4

-- Steps 1 to 3 of `encode`: the space for the packet length, the length of the name, the name.
unfoldable pub encode_name : Bytes → Bytes
encode_name name =
    let len = to_int32 (length name) in replicate header_len 0 ++ (be32 len ++ take len name)

-- Step 5: the packet length goes over the first four bytes.
unfoldable pub back_fill : Bytes → Bytes
back_fill result = be32 (sub32 (to_int32 (length result)) header_len) ++ drop header_len result

-- `ntohl` of the four bytes at an offset; a string has a zero byte behind its last one.
unfoldable pub word_at : ℕ → Bytes → Run ℕ
word_at offset buf = elim (read_be32 (drop offset (buf ++ 0 ∷ []))) [
  | none ↦ fault out_of_bounds
  | some w ↦ ok w
]

module _ (pb : Protobuf) where
  open pb use {Message, type_name, serialize, find_descriptor, get_prototype, new_message, parse}

  unfoldable pub create_message : Bytes → Option Message
  create_message name = elim (find_descriptor name) [
    | none ↦ none
    | some descriptor ↦ elim (get_prototype descriptor) [
      | none ↦ none
      | some prototype ↦ some (new_message prototype)
    ]
  ]

  unfoldable pub encode : Message → Bytes
  unfolding encode_name back_fill
  encode message = elim (serialize message) [
    | none ↦ []
    | some appended ↦ back_fill (encode_name (type_name message) ++ appended)
  ]

  abbrev pub parse_into : Option Message → Bytes → Option Message
  parse_into none body = none
  parse_into (some result) body = parse result body

  -- The end of `decode`, once both lengths have been checked.
  unfoldable pub decode_body : ℕ → ℕ → Bytes → Option Message
  decode_body len name_len buf =
      let data_len = sub32 len (add32 name_len (header_len + header_len)) in
      parse_into (create_message (take name_len (drop (header_len + header_len) buf)))
        (take data_len (drop (header_len + header_len + name_len) buf))

  check_name_len : ℕ → ℕ → Bytes → Run (Option Message)
  unfolding decode_body
  check_name_len len name_len buf =
      if signed_leb (sub32 len (header_len + header_len)) name_len
      then ok none
      else if is_negative name_len
      then fault bad_range
      else ok (decode_body len name_len buf)

  -- `ok none` is the null pointer of a refusal.
  unfoldable pub decode : Bytes → Run (Option Message)
  unfolding word_at check_name_len create_message
  decode buf = do
    field ← word_at 0 buf
    let read_name_len =
        word_at header_len buf >>= λ name_len. check_name_len (to_int32 (length buf)) name_len buf
    if not (to_int32 (length buf) == add32 field header_len) then ok none else read_name_len
