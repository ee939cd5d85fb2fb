-- ===== src/Http/RequestParser.antt =====
-- `class request_parser` (include/http_helper.hpp): the state machine that reads a request byte by
-- byte into a `request`. `headers.back()` of an empty vector is a fault.
pub mod Safety
pub mod Resume
pub mod Again
pub mod Parts
pub mod RoundTrip
use avrouter.Prelude.{
  ℕ, ◌+◌, ◌-◌, ◌*◌, ◌%◌, Bool, true, false, not, ◌&&◌, ◌||◌, List, [], ◌∷◌, ◌++◌, Option, none,
  some, Bytes, ◌==◌, if◌then◌else◌, Run, ok, fault, empty_container, int_overflow, ◌>>=◌, int_mod,
  ltb,
}
use avrouter.Http.Chars.{is_char, is_ctl, is_tspecial, is_digit}
use avrouter.Http.Request.{Header, Request}

pub data State : Type 0 where
  method_start method uri_start uri : State
  http_version_h http_version_t_1 http_version_t_2 http_version_p http_version_slash : State
  http_version_major_start http_version_major http_version_minor_start http_version_minor : State
  expecting_newline_1 header_line_start header_lws header_name : State
  space_before_header_value header_value expecting_newline_2 expecting_newline_3 : State

-- boost::tribool: true, false, indeterminate.
pub data Tribool : Type 0 where
  accepted refused indeterminate : Tribool

-- What a call leaves: its result, the parser's state and the request.
pub record Step : Type 0 where
  pub result : Tribool
  pub state : State
  pub request : Request

abbrev pub more : State → Request → Run Step
more s r = ok (record { result = indeterminate; state = s; request = r })

abbrev pub refuse : State → Request → Run Step
refuse s r = ok (record { result = refused; state = s; request = r })

abbrev pub accept : State → Request → Run Step
accept s r = ok (record { result = accepted; state = s; request = r })

abbrev is_empty : List Header → Bool
is_empty [] = true
is_empty (h ∷ hs) = false

-- A change of `headers.back()`.
unfoldable pub change_back : (Header → Header) → List Header → Option (List Header)
change_back f [] = none
change_back f (h ∷ []) = some (f h ∷ [])
change_back f (h ∷ h' ∷ hs) = elim (change_back f (h' ∷ hs)) [
  | none ↦ none
  | some changed ↦ some (h ∷ changed)
]

abbrev pub push_name : ℕ → Header → Header
push_name c h = record h { name = h.name ++ c ∷ [] }

abbrev pub push_value : ℕ → Header → Header
push_value c h = record h { value = h.value ++ c ∷ [] }

abbrev store : State → Request → Option (List Header) → Run Step
store s r none = fault empty_container
store s r (some hs) = more s (record r { headers = hs })

-- `headers.back().name.push_back(input)`, and the same of the value; then on in state `s`.
unfoldable pub on_back : State → Request → (Header → Header) → Run Step
on_back s r f = store s r (change_back f r.headers)

-- A number with one more digit.
abbrev pub add_digit : ℕ → ℕ → ℕ
add_digit v c = v * 10 + (c - b'0')

-- `v * 10 + input - '0'` in `int`, from the left: the product and the sum may overflow. The number
-- is not negative, since it begins at 0.
unfoldable pub next_digit : {A : Type 0} → (ℕ → Run A) → ℕ → ℕ → Run A
next_digit next v c = if ltb (v * 10 + c) int_mod then next (add_digit v c) else fault int_overflow

-- A state that waits for one byte.
abbrev expect : ℕ → State → State → Request → ℕ → Run Step
expect wanted s here r c = if c == wanted then more s r else refuse here r

unfoldable pub consume : State → Request → ℕ → Run Step
consume method_start r c =
    if not (is_char c) || is_ctl c || is_tspecial c
    then refuse method_start r
    else more method (record r { method = r.method ++ c ∷ [] })
consume method r c =
    if c == b' '
    then more uri r
    else if not (is_char c) || is_ctl c || is_tspecial c
    then refuse method r
    else more method (record r { method = r.method ++ c ∷ [] })
consume uri_start r c =
    if is_ctl c then refuse uri_start r else more uri (record r { uri = r.uri ++ c ∷ [] })
consume uri r c =
    if c == b' '
    then more http_version_h r
    else if is_ctl c
    then refuse uri r
    else more uri (record r { uri = r.uri ++ c ∷ [] })
consume http_version_h r c = expect b'H' http_version_t_1 http_version_h r c
consume http_version_t_1 r c = expect b'T' http_version_t_2 http_version_t_1 r c
consume http_version_t_2 r c = expect b'T' http_version_p http_version_t_2 r c
consume http_version_p r c = expect b'P' http_version_slash http_version_p r c
consume http_version_slash r c =
    if c == b'/'
    then more http_version_major_start (record r { http_version_major = 0; http_version_minor = 0 })
    else refuse http_version_slash r
consume http_version_major_start r c =
    if is_digit c
    then next_digit (λ v. more http_version_major (record r { http_version_major = v }))
        r.http_version_major c
    else refuse http_version_major_start r
consume http_version_major r c =
    if c == b'.'
    then more http_version_minor_start r
    else if is_digit c
    then next_digit (λ v. more http_version_major (record r { http_version_major = v }))
        r.http_version_major c
    else refuse http_version_major r
consume http_version_minor_start r c =
    if is_digit c
    then next_digit (λ v. more http_version_minor (record r { http_version_minor = v }))
        r.http_version_minor c
    else refuse http_version_minor_start r
consume http_version_minor r c =
    if c == b'\r'
    then more expecting_newline_1 r
    else if is_digit c
    then next_digit (λ v. more http_version_minor (record r { http_version_minor = v }))
        r.http_version_minor c
    else refuse http_version_minor r
consume expecting_newline_1 r c = expect b'\n' header_line_start expecting_newline_1 r c
consume header_line_start r c =
    if c == b'\r'
    then more expecting_newline_3 r
    else if not (is_empty r.headers) && (c == b' ' || c == b'\t')
    then more header_lws r
    else if not (is_char c) || is_ctl c || is_tspecial c
    then refuse header_line_start r
    else more header_name
        (record r { headers = r.headers ++ record { name = c ∷ []; value = [] } ∷ [] })
consume header_lws r c =
    if c == b'\r'
    then more expecting_newline_2 r
    else if c == b' ' || c == b'\t'
    then more header_lws r
    else if is_ctl c
    then refuse header_lws r
    else on_back header_value r (push_value c)
consume header_name r c =
    if c == b':'
    then more space_before_header_value r
    else if not (is_char c) || is_ctl c || is_tspecial c
    then refuse header_name r
    else on_back header_name r (push_name c)
consume space_before_header_value r c = expect b' ' header_value space_before_header_value r c
consume header_value r c =
    if c == b'\r'
    then more expecting_newline_2 r
    else if is_ctl c
    then refuse header_value r
    else on_back header_value r (push_value c)
consume expecting_newline_2 r c = expect b'\n' header_line_start expecting_newline_2 r c
consume expecting_newline_3 r c =
    if c == b'\n' then accept expecting_newline_3 r else refuse expecting_newline_3 r

-- The result of `parse` with the bytes that it has not consumed.
pub record Parsed : Type 0 where
  pub last : Step
  pub rest : Bytes

-- The test of the loop in `parse`: it goes on as long as the result is indeterminate.
abbrev pub settle : Tribool → Step → Bytes → Run Parsed → Run Parsed
settle indeterminate step cs again = again
settle _ step cs again = ok (record { last = step; rest = cs })

abbrev pub unsettled : State → Request → Step
unsettled s r = record { result = indeterminate; state = s; request = r }

unfoldable pub parse : State → Request → Bytes → Run Parsed
parse s r [] = ok (record { last = unsettled s r; rest = [] })
parse s r (c ∷ cs) = do
  step ← consume s r c
  let again = parse step.state step.request cs
  settle step.result step cs again

-- `request_parser()` and `reset`.
abbrev pub initial : State
initial = method_start
