-- ===== src/Escape/Path.antt =====
-- include/escape_string.hpp: `escape_path` and `unescape_path`, with the tests of characters and
-- the hexadecimal digits.
pub mod RoundTrip
use avrouter.Prelude.{
  ℕ, zero, suc, ◌+◌, ◌-◌, ◌*◌, ◌/◌, ◌%◌, Bool, true, false, not, ◌&&◌, ◌||◌, List, [], ◌∷◌, ◌++◌,
  Option, none, some, Bytes, codes, length, drop, if◌then◌else◌, ltb, leb, ◌==◌,
}

-- A `char` from 128 on is negative.
unfoldable pub is_char : ℕ → Bool
is_char c = leb c 127

unfoldable pub is_tspecial : ℕ → Bool
is_tspecial c = c == b' ' || c == b'`' || c == b'{' || c == b'}' || c == b'^' || c == b'|'

-- `hex_chars[i]`.
unfoldable pub hex_char : ℕ → ℕ
hex_char i = if ltb i 10 then b'0' + i else b'a' + (i - 10)

unfoldable pub to_hex : Bytes → Bytes
to_hex [] = []
to_hex (c ∷ cs) = hex_char (c / 16) ∷ hex_char (c % 16) ∷ to_hex cs

-- What `to_hex` writes to `out` for all of `in`: with a zero at the end.
unfoldable pub to_hex_array : Bytes → Bytes
to_hex_array bytes = to_hex bytes ++ 0 ∷ []

unfoldable pub is_print : ℕ → Bool
is_print c = leb 32 c && ltb c 127

unfoldable pub escape_path : Bytes → Bytes
escape_path [] = []
escape_path (c ∷ cs) =
    (if not (is_char c) || is_tspecial c then b'%' ∷ to_hex (c ∷ []) else c ∷ []) ++ escape_path cs

-- The value of a hexadecimal digit.
unfoldable pub hex_value : ℕ → Option ℕ
hex_value c =
    if leb b'0' c && leb c b'9'
    then some (c - b'0')
    else if leb b'a' c && leb c b'f'
    then some (c - b'a' + 10)
    else if leb b'A' c && leb c b'F'
    then some (c - b'A' + 10)
    else none

-- `std::isalnum` in the locale that the program runs in, "C".
abbrev pub is_alnum : ℕ → Bool
is_alnum c = (leb b'0' c && leb c b'9') || (leb b'A' c && leb c b'Z') || (leb b'a' c && leb c b'z')

abbrev pub contains : Bytes → ℕ → Bool
contains [] c = false
contains (d ∷ ds) c = c == d || contains ds c

-- The characters that `unescape_path` takes as they are.
unfoldable pub is_plain : ℕ → Bool
is_plain c = contains (codes "-_.!~*'():@&=$,/;") c || is_alnum c

-- The byte that the first characters stand for, and what is left behind them; `none` is a failure.
abbrev pub both_digits : Option ℕ → Option ℕ → Bytes → Option (ℕ × Bytes)
both_digits (some high) (some low) rest = some (high * 16 + low, rest)
both_digits _ _ rest = none

abbrev pub hex_pair : Bytes → Option (ℕ × Bytes)
hex_pair (a ∷ b ∷ rest) = both_digits (hex_value a) (hex_value b) rest
hex_pair _ = none

unfoldable pub next_byte : ℕ → Bytes → Option (ℕ × Bytes)
next_byte c rest =
    if c == b'%'
    then hex_pair rest
    else if c == b'+'
    then some (b' ', rest)
    else if is_plain c
    then some (c, rest)
    else none

-- The result and `out`, which on a failure holds what came before.
abbrev pub grow : Option (ℕ × Bytes) → (Bytes → Bool × Bytes) → Bool × Bytes
grow none again = (false, [])
grow (some (c, rest)) again = let (done, out) = again rest in (done, c ∷ out)

-- The loop, on fuel: each turn takes one character or three.
unfoldable pub unescape_from : ℕ → Bytes → Bool × Bytes
unescape_from zero text = (true, [])
unescape_from (suc fuel) [] = (true, [])
unescape_from (suc fuel) (c ∷ cs) = grow (next_byte c cs) (unescape_from fuel)

abbrev pub unescape_path : Bytes → Bool × Bytes
unescape_path text = unescape_from (length text) text
