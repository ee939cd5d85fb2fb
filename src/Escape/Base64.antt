-- ===== src/Escape/Base64.antt =====
-- include/escape_string.hpp: `base64_encode` and `base64_decode`.
pub mod RoundTrip
use avrouter.Prelude.{
  ℕ, zero, suc, ◌+◌, ◌-◌, ◌*◌, ◌/◌, ◌%◌, Bool, true, false, not, ◌&&◌, ◌||◌, List, [], ◌∷◌, ◌++◌,
  Option, none, some, Bytes, codes, get_elem?, if◌then◌else◌, ltb, leb, ◌==◌,
}

abbrev pub base64_chars : Bytes
base64_chars = codes "ABCDEFGHIJKLMNOPQRSTUVWXYZabcdefghijklmnopqrstuvwxyz0123456789+/"

abbrev or_nul : Option ℕ → ℕ
or_nul none = 0
or_nul (some c) = c

-- `base64_chars[i]`; behind the last character of a string is a zero.
unfoldable pub char_at : ℕ → ℕ
char_at i = or_nul (get_elem? base64_chars i)

-- `base64_chars.find(c)` as an `unsigned char`: 255 stands for `npos`.
find_from : ℕ → Bytes → ℕ → ℕ
find_from i [] c = 255
find_from i (d ∷ ds) c = if d == c then i else find_from (suc i) ds c

unfoldable pub find_char : ℕ → ℕ
unfolding find_from
find_char c = find_from 0 base64_chars c

unfoldable pub is_base64 : ℕ → Bool
is_base64 c =
    (leb b'0' c && leb c b'9')
    || (leb b'A' c && leb c b'Z')
    || (leb b'a' c && leb c b'z')
    || c == b'+'
    || c == b'/'

-- The four indices of three bytes, as `char_array_4` holds them.
abbrev pub sextets : ℕ → ℕ → ℕ → Bytes
sextets a b c = (a / 4) ∷ (a % 4 * 16 + b / 16) ∷ (b % 16 * 4 + c / 64) ∷ (c % 64) ∷ []

abbrev pub chars_at : Bytes → Bytes
chars_at [] = []
chars_at (i ∷ is) = char_at i ∷ chars_at is

-- The end of `base64_encode`, with the bytes that are left in `char_array_3`.
unfoldable pub encode_tail : Bytes → Bytes
encode_tail (a ∷ []) = char_at (a / 4) ∷ char_at (a % 4 * 16 + 0 / 16) ∷ b'=' ∷ b'=' ∷ []
encode_tail (a ∷ b ∷ []) =
    char_at (a / 4) ∷ char_at (a % 4 * 16 + b / 16) ∷ char_at (b % 16 * 4 + 0 / 64) ∷ b'=' ∷ []
encode_tail _ = []

-- The loop, with the bytes that `char_array_3` holds so far.
unfoldable pub encode_loop : Bytes → Bytes → Bytes
encode_loop left [] = encode_tail left
encode_loop (a ∷ b ∷ []) (c ∷ cs) = chars_at (sextets a b c) ++ encode_loop [] cs
encode_loop left (c ∷ cs) = encode_loop (left ++ c ∷ []) cs

abbrev pub base64_encode : Bytes → Bytes
base64_encode bytes = encode_loop [] bytes

-- `char_array_3` of four indices; each is an `unsigned char`.
abbrev pub octets : ℕ → ℕ → ℕ → ℕ → Bytes
octets p q r s =
    ((p * 4 + q / 16 % 4) % 256)
    ∷ ((q % 16 * 16 + r / 4 % 16) % 256)
    ∷ ((r % 4 * 64 + s) % 256)
    ∷ []

-- The end of `base64_decode`, with the characters that are left in `char_array_4`. The zeros that
-- fill it up are looked up as well.
unfoldable pub decode_tail : Bytes → Bytes
decode_tail (c ∷ d ∷ []) = ((find_char c * 4 + find_char d / 16 % 4) % 256) ∷ []
decode_tail (c ∷ d ∷ e ∷ []) =
    ((find_char c * 4 + find_char d / 16 % 4) % 256)
    ∷ ((find_char d % 16 * 16 + find_char e / 4 % 16) % 256)
    ∷ []
decode_tail _ = []

-- The bytes that `char_array_4` with the next character gives, and what it holds then.
unfoldable pub take_char : Bytes → ℕ → Bytes × Bytes
take_char (c ∷ d ∷ e ∷ []) f = (octets (find_char c) (find_char d) (find_char e) (find_char f), [])
take_char left f = ([], left ++ f ∷ [])

unfoldable pub decode_loop : Bytes → Bytes → Bytes
decode_loop left [] = decode_tail left
decode_loop left (c ∷ cs) =
    let (bytes, left') = take_char left c in
    let rest = decode_loop left' cs in
    if not (c == b'=') && is_base64 c then bytes ++ rest else decode_tail left

abbrev pub base64_decode : Bytes → Bytes
base64_decode text = decode_loop [] text
