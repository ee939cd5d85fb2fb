-- ===== src/Http/Chars.antt =====
-- The character tests of `request_parser` (include/http_helper.hpp). A `char` is signed: the bytes
-- from 128 on are negative, so they are neither characters nor control characters.
use avrouter.Prelude.{ℕ, ◌≡◌, ◌≢◌, Bool, true, ◌&&◌, ◌||◌, not, leb, ◌==◌, arith, ap}

unfoldable pub is_char : ℕ → Bool
is_char c = leb c 127

unfoldable pub is_ctl : ℕ → Bool
is_ctl c = leb c 31 || c == 127

unfoldable pub is_tspecial : ℕ → Bool
is_tspecial c =
    c == b'('
    || c == b')'
    || c == b'<'
    || c == b'>'
    || c == b'@'
    || c == b','
    || c == b';'
    || c == b':'
    || c == b'\\'
    || c == b'"'
    || c == b'/'
    || c == b'['
    || c == b']'
    || c == b'?'
    || c == b'='
    || c == b'{'
    || c == b'}'
    || c == b' '
    || c == b'\t'

unfoldable pub is_digit : ℕ → Bool
is_digit c = leb b'0' c && leb c b'9'

-- What the method and the name of a header are made of.
abbrev pub is_token : ℕ → Bool
is_token c = not (not (is_char c) || is_ctl c || is_tspecial c)

-- What the delimiters mean to a token: they are no part of one.
pub tspecial_space : is_tspecial b' ' ≡ true
unfolding is_tspecial
tspecial_space = ground arith

pub tspecial_colon : is_tspecial b':' ≡ true
unfolding is_tspecial
tspecial_colon = ground arith

pub token-ne_space : (c : ℕ) → is_token c ≡ true → c ≢ b' '
token-ne_space c h e = ground (arith, tspecial_space, ap is_tspecial e)

pub token-ne_colon : (c : ℕ) → is_token c ≡ true → c ≢ b':'
token-ne_colon c h e = ground (arith, tspecial_colon, ap is_tspecial e)
