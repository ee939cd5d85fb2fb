-- ===== src/Http/Headers.antt =====
-- `headers_equal`, `check_header` and `parse_http_headers` (include/http_helper.hpp): the state
-- machine that reads the header lines of an answer. Its tests of characters are those of
-- include/escape_string.hpp.
pub mod Trim
pub mod RoundTrip
use avrouter.Prelude.{
  ℕ, ◌+◌, ◌-◌, ◌*◌, ◌%◌, ◌^◌, Bool, true, false, not, ◌&&◌, ◌||◌, List, [], ◌∷◌, ◌++◌, Option, none,
  some, Bytes, codes, leb, ltb, ◌==◌, if◌then◌else◌,
}
use avrouter.Http.Chars.{is_ctl}
use avrouter.Http.Request.{to_lower, digits_value}
use avrouter.Escape.Path.{is_char, is_tspecial}

abbrev pub tolower_compare : ℕ → ℕ → Bool
tolower_compare a b = to_lower a == to_lower b

-- On strings of one length.
unfoldable pub headers_equal : Bytes → Bytes → Bool
headers_equal [] [] = true
headers_equal (x ∷ xs) (y ∷ ys) = tolower_compare x y && headers_equal xs ys
headers_equal _ _ = false

-- `std::isspace` in the locale "C".
abbrev pub is_space : ℕ → Bool
is_space c = c == b' ' || (leb 9 c && leb c 13)

abbrev pub trim_left : Bytes → Bytes
trim_left [] = []
trim_left (c ∷ cs) = if is_space c then trim_left cs else c ∷ cs

-- A character in front of what is left of the rest by the right trim.
abbrev keep_left : ℕ → Bytes → Bytes
keep_left c [] = if is_space c then [] else c ∷ []
keep_left c (d ∷ ds) = c ∷ d ∷ ds

abbrev pub trim_right : Bytes → Bytes
trim_right [] = []
trim_right (c ∷ cs) = keep_left c (trim_right cs)

-- `boost::trim`.
unfoldable pub trim : Bytes → Bytes
trim text = trim_left (trim_right text)

-- An `int64_t` is its bit pattern, below 2 ^ 64.
abbrev pub i64_mod : ℕ
i64_mod = 2 ^ 64

-- `std::max` of two `int64_t`: adding 2 ^ 63 maps their order to that of the patterns.
unfoldable pub max64 : ℕ → ℕ → ℕ
max64 a b = if ltb ((a + 2 ^ 63) % i64_mod) ((b + 2 ^ 63) % i64_mod) then b else a

abbrev pub clamp_pos : ℕ → ℕ
clamp_pos n = if leb (2 ^ 63) n then 2 ^ 63 - 1 else n

abbrev pub clamp_neg : ℕ → ℕ
clamp_neg n = if leb (2 ^ 63) n then 2 ^ 63 else (i64_mod - n) % i64_mod

abbrev pub signed_digits : Bytes → ℕ
signed_digits [] = 0
signed_digits (c ∷ cs) =
    if c == b'-'
    then clamp_neg (digits_value 0 cs)
    else if c == b'+'
    then clamp_pos (digits_value 0 cs)
    else clamp_pos (digits_value 0 (c ∷ cs))

-- `strtoll(x, NULL, 10)`.
unfoldable pub atoi64 : Bytes → ℕ
atoi64 text = signed_digits (trim_left text)

-- What `parse_http_headers` fills of the caller's.
pub record Answer : Type 0 where
  pub content_type : Bytes
  pub content_length : ℕ
  pub location : Bytes
  pub headers : List (Bytes × Bytes)

-- The part behind the first `/`.
abbrev behind_slash : Bytes → Option Bytes
behind_slash [] = none
behind_slash (c ∷ cs) = if c == b'/' then some cs else behind_slash cs

abbrev range_length : Option Bytes → ℕ → ℕ
range_length none length = length
range_length (some []) length = length
range_length (some (c ∷ cs)) length = max64 (atoi64 (c ∷ cs)) length

unfoldable pub check_header : Bytes → Bytes → Answer → Answer
check_header name value a =
    if headers_equal name (codes "Content-Type")
    then record a { content_type = value }
    else if headers_equal name (codes "Content-Length")
    then record a { content_length = max64 (atoi64 value) a.content_length }
    else if headers_equal name (codes "Location")
    then record a { location = value }
    else if headers_equal name (codes "Content-Range")
    then record a { content_length = range_length (behind_slash value) a.content_length }
    else a

pub data HeaderState : Type 0 where
  first_header_line_start header_line_start header_lws header_name : HeaderState
  space_before_header_value header_value linefeed final_linefeed fail : HeaderState

-- The strings `name` and `value`, and the caller's.
pub record Local : Type 0 where
  pub name : Bytes
  pub value : Bytes
  pub answer : Answer

abbrev pub push_name : ℕ → Local → Local
push_name c l = record l { name = l.name ++ c ∷ [] }

abbrev pub push_value : ℕ → Local → Local
push_value c l = record l { value = l.value ++ c ∷ [] }

unfoldable pub add_header : Bytes → Bytes → Answer → Answer
add_header name value a =
    let b = check_header name value a in record b { headers = b.headers ++ (name, value) ∷ [] }

-- The header that has been read, trimmed.
abbrev pub flush : Local → Local
flush l = record {
  name = [];
  value = [];
  answer = add_header (trim l.name) (trim l.value) l.answer;
}

abbrev is_bad : ℕ → Bool
is_bad c = not (is_char c) || is_ctl c || is_tspecial c

-- The `switch`, but for the states that return.
unfoldable pub header_step : HeaderState → Local → ℕ → HeaderState × Local
header_step first_header_line_start l c =
    if c == b'\r'
    then (final_linefeed, l)
    else if is_bad c
    then (fail, l)
    else (header_name, push_name c l)
header_step header_line_start l c =
    if c == b'\r'
    then (final_linefeed, flush l)
    else if c == b' ' || c == b'\t'
    then (header_lws, l)
    else if is_bad c
    then (fail, l)
    else (header_name, push_name c (flush l))
header_step header_lws l c =
    if c == b'\r'
    then (linefeed, l)
    else if c == b' ' || c == b'\t'
    then (header_lws, l)
    else if is_ctl c
    then (fail, l)
    else (header_value, push_value c l)
header_step header_name l c =
    if c == b':'
    then (space_before_header_value, l)
    else if is_bad c
    then (fail, l)
    else (header_name, push_name c l)
header_step space_before_header_value l c =
    if c == b'\r'
    then (linefeed, l)
    else if is_ctl c
    then (fail, l)
    else (header_value, push_value c l)
header_step header_value l c =
    if c == b'\r'
    then (linefeed, l)
    else if is_ctl c
    then (fail, l)
    else (header_value, push_value c l)
header_step linefeed l c = (if c == b'\n' then header_line_start else fail, l)
header_step final_linefeed l c = (fail, l)
header_step fail l c = (fail, l)

-- The loop, from a state on.
unfoldable pub header_loop : HeaderState → Local → Bytes → Bool × Answer
header_loop s l [] = (false, l.answer)
header_loop final_linefeed l (c ∷ cs) = (c == b'\n', l.answer)
header_loop fail l (c ∷ cs) = (false, l.answer)
header_loop s l (c ∷ cs) = let (s', l') = header_step s l c in header_loop s' l' cs

abbrev pub parse_http_headers : Answer → Bytes → Bool × Answer
parse_http_headers a text =
    header_loop first_header_line_start (record { name = []; value = []; answer = a }) text
