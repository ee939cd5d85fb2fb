-- ===== src/Serialization/Outcome.antt =====
-- Every outcome of `decode` on bytes from the network.
use avrouter.Prelude.{
  ℕ, ◌+◌, ◌*◌, ◌<◌, ◌≤◌, ◌≡◌, ◌≢◌, ◌∙◌, refl, sym, [], ◌∷◌, ◌++◌, some, none, Bytes, IsByte, All,
  length, take, drop, arith, ok, fault, bad_range, int_mod, u32_mod, be32, be32-word, word,
  read_be32, read_be32-be32, length-be32, add32, sub32, to_int32, length-append, append_assoc,
  drop_prefix, true, ◌==◌, length-drop, drop-drop, take_all, if◌then◌else◌, ltb, Option,
}
use avrouter.Serialization.{
  Protobuf, create_message, parse_into, word_at, decode_body, check_name_len, decode,
}
use avrouter.Serialization.Layout.{packet, length-packet}

word_at-be32 :
    (w : ℕ) (front rest : Bytes) (offset : ℕ)
    → offset ≡ length front
    → w < u32_mod
    → word_at offset (front ++ (be32 w ++ rest)) ≡ ok w
unfolding word_at
word_at-be32 w front rest offset e h =
    let there : read_be32 (drop offset ((front ++ (be32 w ++ rest)) ++ 0 ∷ [])) ≡ some w =
      rw (append_assoc, drop_prefix front _ offset e, append_assoc)
        (read_be32-be32 w (rest ++ 0 ∷ []) h) in
    rw (word_at, there)

module _ (w : ℕ) (rest : Bytes) where
  head : Bytes
  head = be32 (4 + length rest) ++ be32 w

  packet-head : packet w rest ≡ head ++ rest
  unfolding head
  packet-head = sym (append_assoc (be32 (4 + length rest)) (be32 w) rest)

  length-head : length head ≡ 8
  unfolding head
  length-head = omega (
    arith,
    length-append {0} (be32 (4 + length rest)) (be32 w),
    length-be32 (4 + length rest),
    length-be32 w,
  )

  drop-packet : drop 8 (packet w rest) ≡ rest
  drop-packet = rw packet-head (drop_prefix head rest 8 (sym length-head))

module _ (pb : Protobuf) where
  -- The message that a packet's name and content stand for, if any.
  abbrev pub decode_content : Bytes → Bytes → Option pb.Message
  decode_content name body = parse_into pb (create_message pb name) body

  decode_words :
      (buf : Bytes) (field name_len : ℕ)
      → word_at 0 buf ≡ ok field
      → word_at 4 buf ≡ ok name_len
      → (to_int32 (length buf) == add32 field 4) ≡ true
      → decode pb buf ≡ check_name_len pb (to_int32 (length buf)) name_len buf
  unfolding decode
  decode_words buf field name_len e f g = unfold decode in rw (decode, e, f, g)

  decode-packet :
      (w : ℕ) (rest : Bytes)
      → w < u32_mod
      → 8 + length rest < int_mod
      → decode pb (packet w rest) ≡ check_name_len pb (8 + length rest) w (packet w rest)
  decode-packet w rest k h =
      let len : to_int32 (length (packet w rest)) ≡ 8 + length rest =
        omega (arith, length-packet w rest) in
      decode_words (packet w rest) (4 + length rest) w (word_at-be32 _ [] _ 0 refl (omega arith))
        (word_at-be32 w (be32 (4 + length rest)) rest 4 (sym (length-be32 (4 + length rest))) k)
        (rw len (ground arith))
      ∙ rw len

  decode_body-packet :
      (w : ℕ) (rest : Bytes)
      → w < length rest
      → 8 + length rest < int_mod
      → decode_body pb (8 + length rest) w (packet w rest)
        ≡ decode_content (take w rest) (drop w rest)
  unfolding decode_body
  decode_body-packet w rest h k =
      let size : length (drop w rest) ≤ sub32 (8 + length rest) (add32 w 8) =
        omega (arith, length-drop w rest) in
      rw (decode_body, drop-drop 8 w (packet w rest), drop-packet w rest, take_all _ _ size)

  -- `decode` of eight bytes or more whose packet length is right. It faults where the name's length
  -- is negative as an `int`, and refuses where that length leaves no byte for the message.
  pub decode_outcome :
      (w : ℕ) (rest : Bytes)
      → w < u32_mod
      → 8 + length rest < int_mod
      → decode pb (packet w rest) ≡ (
          if ltb w (length rest)
          then ok (decode_content (take w rest) (drop w rest))
          else if ltb w int_mod
          then ok none
          else fault bad_range)
  unfolding check_name_len
  decode_outcome w rest h k = ground (arith, decode-packet w rest h k, decode_body-packet w rest)

  check_name_len_seven :
      (w : ℕ) (buf : Bytes) (m : pb.Message) → w < u32_mod → check_name_len pb 7 w buf ≢ ok (some m)
  unfolding check_name_len
  check_name_len_seven w buf m h = ground arith

  -- Fewer than eight bytes never give a message.
  decode_short :
      (buf : Bytes)
      → All IsByte buf
      → length buf < 8
      → (m : pb.Message) → decode pb buf ≢ ok (some m)
  unfolding decode read_be32
  decode_short (a ∷ b ∷ c ∷ d ∷ []) t h m = ground arith
  decode_short (a ∷ b ∷ c ∷ d ∷ e ∷ f ∷ g ∷ []) t h m = ground (
    arith,
    check_name_len_seven (((e * 256 + f) * 256 + g) * 256 + 0) (a ∷ b ∷ c ∷ d ∷ e ∷ f ∷ g ∷ []) m,
  )
  decode_short (a ∷ b ∷ c ∷ d ∷ e ∷ f ∷ g ∷ i ∷ rest) t h m = absurd (omega arith)
  decode_short _ t h m = ground arith

  first_word : (a b c d : ℕ) (rest : Bytes) → word_at 0 (a ∷ b ∷ c ∷ d ∷ rest) ≡ ok (word a b c d)
  unfolding word_at read_be32
  first_word a b c d rest = refl

  -- Where the packet length is wrong there is no message.
  decode-length :
      (w : ℕ) (buf : Bytes) (m : pb.Message)
      → word_at 0 buf ≡ ok w
      → w < u32_mod
      → length buf < int_mod
      → decode pb buf ≡ ok (some m)
      → length buf ≡ 4 + w
  unfolding decode
  decode-length w buf m e k h d = ground arith

  packet_sound :
      (w : ℕ) (rest : Bytes) (m : pb.Message)
      → w < u32_mod
      → 8 + length rest < int_mod
      → decode pb (packet w rest) ≡ ok (some m)
      → (w < length rest) × (decode_content (take w rest) (drop w rest) ≡ some m)
  packet_sound w rest m h k e = ground (arith, decode_outcome w rest h k)

  -- Whatever is decoded to a message is a packet with the right length, whose name length leaves
  -- at least one byte, and the message is the one that the name and those bytes stand for.
  pub decode_sound :
      (buf : Bytes) (m : pb.Message)
      → All IsByte buf
      → length buf < int_mod
      → decode pb buf ≡ ok (some m)
      → (w : ℕ) × (rest : Bytes) × (buf ≡ packet w rest)
        × (w < length rest)
        × (decode_content (take w rest) (drop w rest) ≡ some m)
  decode_sound (a ∷ b ∷ c ∷ d ∷ e ∷ f ∷ g ∷ i ∷ rest) m
        (ta, (tb, (tc, (td, (te, (tf, (tg, (ti, t)))))))) h k =
      let w = word e f g i in
      let field : word a b c d ≡ 4 + length rest =
        omega (arith, decode-length (word a b c d) _ m (first_word a b c d _) (omega arith) h k) in
      let split : (a ∷ b ∷ c ∷ d ∷ e ∷ f ∷ g ∷ i ∷ rest) ≡ packet w rest =
        rw (← field, be32-word a b c d ta tb tc td, be32-word e f g i te tf tg ti) in
      let (inside, content) = packet_sound w rest m (omega arith) (omega arith) (rw split at k) in
      (w, rest, split, inside, content)
  decode_sound buf m t h k = absurd (decode_short buf t (omega arith) m k)
