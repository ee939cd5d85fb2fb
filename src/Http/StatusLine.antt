-- ===== src/Http/StatusLine.antt =====
-- `parse_http_status_line` (include/http_helper.hpp): the state machine that reads the first line
-- of an answer. The numbers are the caller's and are not reset; the reason is read and dropped.
pub mod RoundTrip
use avrouter.Prelude.{
  ℕ, Bool, true, false, List, [], ◌∷◌, Bytes, ◌==◌, if◌then◌else◌, Run, ok, ◌>>=◌,
}
use avrouter.Http.Chars.{is_ctl, is_digit}
use avrouter.Http.RequestParser.{next_digit}

pub data LineState : Type 0 where
  http_version_h http_version_t_1 http_version_t_2 http_version_p http_version_slash : LineState
  http_version_major_start http_version_major : LineState
  http_version_minor_start http_version_minor : LineState
  status_code_start status_code reason_phrase linefeed fail : LineState

-- The three numbers of the caller, which are not negative.
pub record StatusLine : Type 0 where
  pub version_major : ℕ
  pub version_minor : ℕ
  pub status : ℕ

abbrev pub set_major : StatusLine → ℕ → StatusLine
set_major v n = record v { version_major = n }

abbrev pub set_minor : StatusLine → ℕ → StatusLine
set_minor v n = record v { version_minor = n }

abbrev pub set_status : StatusLine → ℕ → StatusLine
set_status v n = record v { status = n }

-- A digit of a number, and on in a state.
abbrev pub digit : LineState → (ℕ → StatusLine) → ℕ → ℕ → Run (LineState × StatusLine)
digit s put n c = next_digit (λ m. ok (s, put m)) n c

abbrev expect : ℕ → ℕ → LineState → StatusLine → Run (LineState × StatusLine)
expect wanted c next v = ok (if c == wanted then next else fail, v)

-- The `switch`, but for the states that return.
unfoldable pub line_step : LineState → StatusLine → ℕ → Run (LineState × StatusLine)
line_step http_version_h v c = expect b'H' c http_version_t_1 v
line_step http_version_t_1 v c = expect b'T' c http_version_t_2 v
line_step http_version_t_2 v c = expect b'T' c http_version_p v
line_step http_version_p v c = expect b'P' c http_version_slash v
line_step http_version_slash v c = expect b'/' c http_version_major_start v
line_step http_version_major_start v c =
    if is_digit c then digit http_version_major (set_major v) v.version_major c else ok (fail, v)
line_step http_version_major v c =
    if c == b'.'
    then ok (http_version_minor_start, v)
    else if is_digit c
    then digit http_version_major (set_major v) v.version_major c
    else ok (fail, v)
line_step http_version_minor_start v c =
    if is_digit c then digit http_version_minor (set_minor v) v.version_minor c else ok (fail, v)
line_step http_version_minor v c =
    if c == b' '
    then ok (status_code_start, v)
    else if is_digit c
    then digit http_version_minor (set_minor v) v.version_minor c
    else ok (fail, v)
line_step status_code_start v c =
    if is_digit c then digit status_code (set_status v) v.status c else ok (fail, v)
line_step status_code v c =
    if c == b' '
    then ok (reason_phrase, v)
    else if is_digit c
    then digit status_code (set_status v) v.status c
    else ok (fail, v)
line_step reason_phrase v c =
    if c == b'\r'
    then ok (linefeed, v)
    else if is_ctl c
    then ok (fail, v)
    else ok (reason_phrase, v)
line_step linefeed v c = ok (fail, v)
line_step fail v c = ok (fail, v)

-- The loop, from a state on.
unfoldable pub line_loop : LineState → StatusLine → Bytes → Run (Bool × StatusLine)
line_loop s v [] = ok (false, v)
line_loop linefeed v (c ∷ cs) = ok (c == b'\n', v)
line_loop fail v (c ∷ cs) = ok (false, v)
line_loop s v (c ∷ cs) = line_step s v c >>= λ next. line_loop next.0 next.1 cs

abbrev pub parse_http_status_line : StatusLine → Bytes → Run (Bool × StatusLine)
parse_http_status_line v text = line_loop http_version_h v text
