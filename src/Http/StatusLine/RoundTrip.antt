-- ===== src/Http/StatusLine/RoundTrip.antt =====
-- Status lines as text, and that they are read back.
use mathlib.Core.List.{foldl}
use avrouter.Prelude.{
  ℕ, ◌≡◌, ◌≢◌, ◌∙◌, refl, true, [], ◌∷◌, ◌++◌, Bytes, arith, ok, ◌+◌, ◌*◌, ◌<◌, int_mod,
}
use avrouter.Http.Chars.{is_ctl, is_digit}
use avrouter.Http.RequestParser.{add_digit, next_digit}
use avrouter.Http.RequestParser.Parts.{AllTrue, is_text, foldl-add_digit, digit_bound}
use avrouter.Http.StatusLine.{
  LineState, http_version_h, http_version_major_start, http_version_major, http_version_minor_start,
  http_version_minor, status_code_start, status_code, reason_phrase, StatusLine, set_major,
  set_minor, set_status, line_step, line_loop, parse_http_status_line,
}

-- The digits of the three numbers, and the reason.
pub record Line : Type 0 where
  pub major : Bytes
  pub minor : Bytes
  pub code : Bytes
  pub reason : Bytes

pub record IsLine (l : Line) : Type 0 where
  pub major_ne_nil : l.major ≢ []
  pub major_digits : AllTrue is_digit l.major
  pub minor_ne_nil : l.minor ≢ []
  pub minor_digits : AllTrue is_digit l.minor
  pub code_ne_nil : l.code ≢ []
  pub code_digits : AllTrue is_digit l.code
  pub reason_text : AllTrue is_text l.reason

abbrev pub reason_line : Bytes → Bytes → Bytes
reason_line reason rest = reason ++ (b'\r' ∷ b'\n' ∷ rest)

abbrev pub code_line : Line → Bytes → Bytes
code_line l rest = l.code ++ (b' ' ∷ reason_line l.reason rest)

abbrev pub minor_line : Line → Bytes → Bytes
minor_line l rest = l.minor ++ (b' ' ∷ code_line l rest)

abbrev pub line_text : Line → Bytes → Bytes
line_text l rest = b'H' ∷ b'T' ∷ b'T' ∷ b'P' ∷ b'/' ∷ (l.major ++ (b'.' ∷ minor_line l rest))

-- The numbers with the digits of the line behind them.
abbrev pub read_line : StatusLine → Line → StatusLine
read_line v l = record {
  version_major = foldl add_digit v.version_major l.major;
  version_minor = foldl add_digit v.version_minor l.minor;
  status = foldl add_digit v.status l.code;
}

-- The number that digits make of another fits.
abbrev pub Fits : ℕ → Bytes → Type 0
Fits n xs = foldl add_digit n xs + b'0' < int_mod

digit_in_range :
    (n c : ℕ) (cs : Bytes) → is_digit c ≡ true → Fits n (c ∷ cs) → (n * 10 + c) < int_mod
digit_in_range n c cs h fits =
    let grows = foldl-add_digit (add_digit n c) cs in
    let bound = digit_bound c h in omega (arith, fits, grows, bound)

-- Digits keep a state and add to its number.
module _ (s : LineState) (put : ℕ → StatusLine)
    (step : (n c : ℕ) (cs : Bytes)
      → is_digit c ≡ true
      → n * 10 + c < int_mod
      → line_loop s (put n) (c ∷ cs) ≡ line_loop s (put (add_digit n c)) cs) where
  loop-digits :
      (n : ℕ) (xs rest : Bytes)
      → AllTrue is_digit xs
      → Fits n xs
      → line_loop s (put n) (xs ++ rest) ≡ line_loop s (put (foldl add_digit n xs)) rest
  loop-digits n [] rest h fits = refl
  loop-digits n (c ∷ xs) rest h fits =
      step n c (xs ++ rest) h.0 (digit_in_range n c xs h.0 fits)
      ∙ loop-digits (add_digit n c) xs rest h.1 fits

module _ (v : StatusLine) where
  loop-major :
      (n : ℕ) (xs rest : Bytes)
      → AllTrue is_digit xs
      → Fits n xs
      → line_loop http_version_major (set_major v n) (xs ++ rest)
        ≡ line_loop http_version_major (set_major v (foldl add_digit n xs)) rest
  unfolding line_loop line_step next_digit is_digit
  loop-major =
      loop-digits http_version_major (set_major v) (λ n c cs d small. ground (arith, d, small))

  loop-minor :
      (n : ℕ) (xs rest : Bytes)
      → AllTrue is_digit xs
      → Fits n xs
      → line_loop http_version_minor (set_minor v n) (xs ++ rest)
        ≡ line_loop http_version_minor (set_minor v (foldl add_digit n xs)) rest
  unfolding line_loop line_step next_digit is_digit
  loop-minor =
      loop-digits http_version_minor (set_minor v) (λ n c cs d small. ground (arith, d, small))

  loop-code :
      (n : ℕ) (xs rest : Bytes)
      → AllTrue is_digit xs
      → Fits n xs
      → line_loop status_code (set_status v n) (xs ++ rest)
        ≡ line_loop status_code (set_status v (foldl add_digit n xs)) rest
  unfolding line_loop line_step next_digit is_digit
  loop-code = loop-digits status_code (set_status v) (λ n c cs d small. ground (arith, d, small))

  loop-reason :
      (xs rest : Bytes)
      → AllTrue is_text xs
      → line_loop reason_phrase v (reason_line xs rest) ≡ ok (true, v)
  unfolding line_loop line_step is_ctl
  loop-reason [] rest h = refl
  loop-reason (c ∷ xs) rest h = ground (arith, h.0, loop-reason xs rest h.1)

  code_start :
      (c : ℕ) (cs : Bytes)
      → is_digit c ≡ true
      → v.status * 10 + c < int_mod
      → line_loop status_code_start v (c ∷ cs)
        ≡ line_loop status_code (set_status v (add_digit v.status c)) cs
  unfolding line_loop line_step next_digit is_digit
  code_start c cs h small = ground (arith, h, small)

  minor_start :
      (c : ℕ) (cs : Bytes)
      → is_digit c ≡ true
      → v.version_minor * 10 + c < int_mod
      → line_loop http_version_minor_start v (c ∷ cs)
        ≡ line_loop http_version_minor (set_minor v (add_digit v.version_minor c)) cs
  unfolding line_loop line_step next_digit is_digit
  minor_start c cs h small = ground (arith, h, small)

  major_start :
      (c : ℕ) (cs : Bytes)
      → is_digit c ≡ true
      → v.version_major * 10 + c < int_mod
      → line_loop http_version_major_start v (c ∷ cs)
        ≡ line_loop http_version_major (set_major v (add_digit v.version_major c)) cs
  unfolding line_loop line_step next_digit is_digit
  major_start c cs h small = ground (arith, h, small)

  code_end : (cs : Bytes) → line_loop status_code v (b' ' ∷ cs) ≡ line_loop reason_phrase v cs
  unfolding line_loop line_step
  code_end cs = refl

  minor_end :
      (cs : Bytes) → line_loop http_version_minor v (b' ' ∷ cs) ≡ line_loop status_code_start v cs
  unfolding line_loop line_step
  minor_end cs = refl

  major_end :
      (cs : Bytes)
      → line_loop http_version_major v (b'.' ∷ cs) ≡ line_loop http_version_minor_start v cs
  unfolding line_loop line_step
  major_end cs = refl

  http_slash :
      (cs : Bytes)
      → line_loop http_version_h v (b'H' ∷ b'T' ∷ b'T' ∷ b'P' ∷ b'/' ∷ cs)
        ≡ line_loop http_version_major_start v cs
  unfolding line_loop line_step
  http_slash cs = refl

read_code :
    (v : StatusLine) (code reason rest : Bytes)
    → code ≢ []
    → AllTrue is_digit code
    → Fits v.status code
    → AllTrue is_text reason
    → line_loop status_code_start v (code ++ (b' ' ∷ reason_line reason rest))
      ≡ ok (true, record v { status = foldl add_digit v.status code })
read_code v [] reason rest ne h fits k = absurd (ne refl)
read_code v (c ∷ code) reason rest ne h fits k =
    code_start v c _ h.0 (digit_in_range v.status c code h.0 fits)
    ∙ loop-code v (add_digit v.status c) code _ h.1 fits
    ∙ code_end _ (reason_line reason rest)
    ∙ loop-reason _ reason rest k

read_minor :
    (v : StatusLine) (minor rest : Bytes)
    → minor ≢ []
    → AllTrue is_digit minor
    → Fits v.version_minor minor
    → line_loop http_version_minor_start v (minor ++ (b' ' ∷ rest))
      ≡ line_loop status_code_start
          (record v { version_minor = foldl add_digit v.version_minor minor })
          rest
read_minor v [] rest ne h fits = absurd (ne refl)
read_minor v (c ∷ minor) rest ne h fits =
    minor_start v c _ h.0 (digit_in_range v.version_minor c minor h.0 fits)
    ∙ loop-minor v (add_digit v.version_minor c) minor _ h.1 fits
    ∙ minor_end _ rest

read_major :
    (v : StatusLine) (major rest : Bytes)
    → major ≢ []
    → AllTrue is_digit major
    → Fits v.version_major major
    → line_loop http_version_h v (b'H' ∷ b'T' ∷ b'T' ∷ b'P' ∷ b'/' ∷ (major ++ (b'.' ∷ rest)))
      ≡ line_loop http_version_minor_start
          (record v { version_major = foldl add_digit v.version_major major })
          rest
read_major v [] rest ne h fits = absurd (ne refl)
read_major v (c ∷ major) rest ne h fits =
    http_slash v _
    ∙ major_start v c _ h.0 (digit_in_range v.version_major c major h.0 fits)
    ∙ loop-major v (add_digit v.version_major c) major _ h.1 fits
    ∙ major_end _ rest

-- A well-formed status line is accepted, whatever comes behind it, and the digits of its three
-- numbers are added to the numbers of the caller, if the numbers that this makes are below
-- 2 ^ 31 - 48.
pub parse_http_status_line-line_text :
    (v : StatusLine) (l : Line) (rest : Bytes)
    → IsLine l
    → Fits v.version_major l.major
    → Fits v.version_minor l.minor
    → Fits v.status l.code
    → parse_http_status_line v (line_text l rest) ≡ ok (true, read_line v l)
parse_http_status_line-line_text v l rest h major minor status =
    read_major v l.major _ h.major_ne_nil h.major_digits major
    ∙ read_minor _ l.minor _ h.minor_ne_nil h.minor_digits minor
    ∙ read_code _ l.code l.reason rest h.code_ne_nil h.code_digits status h.reason_text
