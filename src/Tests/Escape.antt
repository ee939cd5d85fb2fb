-- ===== src/Tests/Escape.antt =====
-- Escaped strings.
use avrouter.Prelude.{◌≡◌, refl, false, [], ◌∷◌, codes, arith}
use avrouter.Escape.Base64.{char_at, encode_tail, encode_loop, base64_encode}
use avrouter.Escape.Path.{
  is_char, is_tspecial, hex_char, to_hex, to_hex_array, escape_path, hex_value, is_plain, next_byte,
  unescape_from, unescape_path,
}
use avrouter.Escape.Path.RoundTrip.{IsEscapable}

base64_encode-hello : base64_encode (codes "hello") ≡ codes "aGVsbG8="
unfolding encode_loop encode_tail char_at
base64_encode-hello = refl

escape_path-blank : escape_path (codes "a b") ≡ codes "a%20b"
unfolding escape_path is_char is_tspecial to_hex hex_char
escape_path-blank = refl

-- A percent sign is not escaped.
escape_path-percent : unescape_path (escape_path (codes "5%")) ≡ (false, codes "5")
unfolding escape_path is_char is_tspecial to_hex hex_char unescape_from next_byte is_plain hex_value
escape_path-percent = refl

letter-IsEscapable : IsEscapable b'a'
unfolding is_char is_tspecial is_plain
letter-IsEscapable = record { byte = omega arith; covered = refl }

blank-IsEscapable : IsEscapable b' '
unfolding is_char is_tspecial is_plain
blank-IsEscapable = record { byte = omega arith; covered = refl }

to_hex_array-bytes : to_hex_array (255 ∷ 7 ∷ []) ≡ b'f' ∷ b'f' ∷ b'0' ∷ b'7' ∷ 0 ∷ []
unfolding to_hex_array to_hex hex_char
to_hex_array-bytes = refl
