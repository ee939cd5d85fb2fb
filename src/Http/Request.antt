-- ===== src/Http/Request.antt =====
-- `struct header`, `struct request` with `operator[]` and `normalise` (include/http_helper.hpp).
use avrouter.Prelude.{
  ℕ, ◌+◌, ◌-◌, ◌*◌, ◌%◌, ◌^◌, Bool, true, false, ◌&&◌, ◌||◌, Bytes, codes, List, [], ◌∷◌,
  if◌then◌else◌, leb, ◌==◌, equal,
}

pub record Header : Type 0 where
  pub name : Bytes
  pub value : Bytes

-- The numbers are the bit patterns of an `int` and of a `uint64_t`.
pub record Request : Type 0 where
  pub method : Bytes
  pub uri : Bytes
  pub http_version_major : ℕ
  pub http_version_minor : ℕ
  pub headers : List Header
  pub content_length : ℕ
  pub keep_alive : Bool
  pub body : Bytes

-- `std::tolower` in the locale "C".
abbrev pub to_lower : ℕ → ℕ
to_lower c = if leb b'A' c && leb c b'Z' then c + 32 else c

abbrev pub lower : Bytes → Bytes
lower [] = []
lower (c ∷ cs) = to_lower c ∷ lower cs

-- `strncasecmp` over the length of the first string: it is a beginning of the second.
abbrev pub begins_with : Bytes → Bytes → Bool
begins_with [] text = true
begins_with (c ∷ cs) [] = false
begins_with (c ∷ cs) (d ∷ ds) = to_lower c == to_lower d && begins_with cs ds

-- `operator[]`.
unfoldable pub header_value : Bytes → List Header → Bytes
header_value name [] = []
header_value name (h ∷ hs) = if begins_with name h.name then h.value else header_value name hs

-- `>>` into a `uint64_t`: white space, a sign, digits. No digits give 0, too large a number the
-- largest, and a minus sign the negative in 64 bits.
abbrev pub skip_blanks : Bytes → Bytes
skip_blanks [] = []
skip_blanks (c ∷ cs) = if c == b' ' || (leb 9 c && leb c 13) then skip_blanks cs else c ∷ cs

abbrev pub digits_value : ℕ → Bytes → ℕ
digits_value n [] = n
digits_value n (c ∷ cs) =
    if leb b'0' c && leb c b'9' then digits_value (n * 10 + (c - b'0')) cs else n

abbrev pub clamp : ℕ → ℕ
clamp n = if leb (2 ^ 64) n then 2 ^ 64 - 1 else n

abbrev pub signed_value : Bytes → ℕ
signed_value [] = 0
signed_value (c ∷ cs) =
    let n = digits_value 0 cs in
    if c == b'-'
    then (if leb (2 ^ 64) n then 2 ^ 64 - 1 else (2 ^ 64 - n) % 2 ^ 64)
    else if c == b'+'
    then clamp n
    else clamp (digits_value 0 (c ∷ cs))

unfoldable pub extract_u64 : Bytes → ℕ
extract_u64 text = signed_value (skip_blanks text)

abbrev pub lower_names : List Header → List Header
lower_names [] = []
lower_names (h ∷ hs) = record h { name = lower h.name } ∷ lower_names hs

abbrev new_length : Bytes → ℕ → ℕ
new_length [] old = old
new_length (c ∷ cs) old = extract_u64 (c ∷ cs)

unfoldable pub normalise : Request → Request
normalise r =
    let headers = lower_names r.headers in
    record r {
      method = lower r.method;
      uri = lower r.uri;
      headers = headers;
      content_length = new_length (header_value (codes "content-length") headers) r.content_length;
      keep_alive = equal (lower (header_value (codes "connection") headers)) (codes "keep-alive");
    }
