-- ===== src/HttpConnection/Responses.antt =====
-- Answers as a client reads them, with the readers of include/http_helper.hpp.

use avrouter.Prelude.{
  ℕ, ◌+◌, ◌^◌, ◌<◌, ok, ◌≡◌, refl, ap, ◌∙◌, true, List, [], ◌∷◌, ◌++◌, append_assoc, Bytes, codes,
  length, All-append, ◌==◌, if◌then◌else◌, arith, int_mod,
}
use avrouter.Prelude.Decimal.{decimal, decimal_from-All, decimal_from-ne_nil}
use avrouter.Http.Chars.{is_ctl, is_digit}
use avrouter.Http.RequestParser.Parts.{AllTrue, is_text, all-AllTrue}
use avrouter.Escape.Path.{is_char, is_tspecial}
use avrouter.Http.StatusLine.{StatusLine, parse_http_status_line}
use avrouter.Http.StatusLine.RoundTrip.{
  Line, IsLine, Fits, line_text, parse_http_status_line-line_text,
}
use avrouter.Http.Headers.{headers_equal, check_header, add_header, Answer, parse_http_headers}
use avrouter.Http.Headers.Trim.{solid-IsTrimmed}
use avrouter.Http.Headers.RoundTrip.{
  IsHeader, is_name_char, lines, add_all, parse_http_headers-lines,
}
use avrouter.Http.Digits.{
  digits-number, number-decimal, atoi64-decimal, max64-zero, decimal_int-decimal, digits-solid,
  digits-text,
}
use avrouter.HttpConnection.{HttpConnection, response_head, write_response}

-- What is behind the first line.
unfoldable pub behind_line : Bytes → Bytes
behind_line [] = []
behind_line (c ∷ cs) = if c == b'\n' then cs else behind_line cs

behind_line-append :
    (xs ys : Bytes) → AllTrue is_text xs → behind_line (xs ++ (b'\r' ∷ b'\n' ∷ ys)) ≡ ys
unfolding behind_line is_ctl
behind_line-append [] ys h = refl
behind_line-append (c ∷ cs) ys h = ground (arith, h.0, behind_line-append cs ys h.1)

abbrev response_line : ℕ → ℕ → Line
response_line major minor = record {
  major = decimal major;
  minor = decimal minor;
  code = codes "200";
  reason = codes "OK";
}

response_line-IsLine : (major minor : ℕ) → IsLine (response_line major minor)
unfolding is_digit is_ctl
response_line-IsLine major minor = record {
  major_ne_nil = decimal_from-ne_nil 19 major;
  major_digits = digits-number (decimal major) (decimal_from-All 20 major);
  minor_ne_nil = decimal_from-ne_nil 19 minor;
  minor_digits = digits-number (decimal minor) (decimal_from-All 20 minor);
  code_ne_nil = λ e. cc;
  code_digits = (refl, (refl, (refl, tt)));
  reason_text = (refl, (refl, tt));
}

abbrev pub response_headers : ℕ → List (Bytes × Bytes)
response_headers size =
    (codes "Content-Type", codes "application/json") ∷ (codes "Content-Length", decimal size) ∷ []

type-IsHeader : IsHeader (codes "Content-Type", codes "application/json")
unfolding is_char is_ctl is_tspecial
type-IsHeader = record {
  name_ne_nil = λ e. cc;
  name_chars = all-AllTrue is_name_char (codes "Content-Type") refl;
  value_text = all-AllTrue is_text (codes "application/json") refl;
  value_trimmed = record { left = refl; right = refl };
}

length-IsHeader : (size : ℕ) → IsHeader (codes "Content-Length", decimal size)
unfolding is_char is_ctl is_tspecial
length-IsHeader size = record {
  name_ne_nil = λ e. cc;
  name_chars = all-AllTrue is_name_char (codes "Content-Length") refl;
  value_text = digits-text (decimal size) (decimal_from-All 20 size);
  value_trimmed =
      solid-IsTrimmed (decimal size) (digits-solid (decimal size) (decimal_from-All 20 size));
}

abbrev pub no_status : StatusLine
no_status = record { version_major = 0; version_minor = 0; status = 0 }

abbrev pub no_answer : Answer
no_answer = record { content_type = []; content_length = 0; location = []; headers = [] }

add_all-response_headers :
    (size : ℕ)
    → size < 2 ^ 63
    → add_all (response_headers size) no_answer ≡ record {
      content_type = codes "application/json";
      content_length = size;
      location = [];
      headers = response_headers size;
    }
unfolding add_header check_header headers_equal
add_all-response_headers size h = rw (atoi64-decimal size h, max64-zero size h)

response_head-line_text :
    (major minor size : ℕ) (rest : Bytes)
    → major < int_mod
    → minor < int_mod
    → response_head major minor size rest
      ≡ line_text (response_line major minor) (lines (response_headers size) rest)
unfolding response_head
response_head-line_text major minor size rest h k =
    rw (decimal_int-decimal major h, decimal_int-decimal minor k)

behind_status :
    (major minor : ℕ) (rest : Bytes)
    → behind_line (line_text (response_line major minor) rest) ≡ rest
unfolding is_ctl
behind_status major minor rest =
    let tail = codes " 200 OK" in
    let minor_tail = decimal minor ++ tail in
    let first = codes "HTTP/" ++ (decimal major ++ (codes "." ++ minor_tail)) in
    let eq : line_text (response_line major minor) rest ≡ first ++ (b'\r' ∷ b'\n' ∷ rest) = rw (
      append_assoc (decimal major) (codes "." ++ minor_tail) (b'\r' ∷ b'\n' ∷ rest),
      append_assoc (decimal minor) tail (b'\r' ∷ b'\n' ∷ rest),
    ) in
    ap behind_line eq
    ∙ behind_line-append first rest (
        let Text = λ (c : ℕ). is_text c ≡ true in
        All-append Text (codes "HTTP/") _ (all-AllTrue is_text (codes "HTTP/") refl) (
          All-append Text (decimal major) _
            (digits-text (decimal major) (decimal_from-All 20 major))
            (
              refl,
              All-append Text (decimal minor) _
                  (digits-text (decimal minor) (decimal_from-All 20 minor))
                  (all-AllTrue is_text tail refl),
            )))

behind_headers :
    (size : ℕ) (rest : Bytes)
    → behind_line (behind_line (behind_line (lines (response_headers size) rest))) ≡ rest
unfolding behind_line is_ctl
behind_headers size rest = ap behind_line (
    behind_line-append (codes "Content-Length: " ++ decimal size) (b'\r' ∷ b'\n' ∷ rest) (
      All-append (λ c. is_text c ≡ true) (codes "Content-Length: ") (decimal size)
        (all-AllTrue is_text (codes "Content-Length: ") refl)
        (digits-text (decimal size) (decimal_from-All 20 size))))

decimal-Fits : (n : ℕ) → n + b'0' < int_mod → Fits 0 (decimal n)
decimal-Fits n h = rw (number-decimal n (omega (arith, h))) h

-- The answer that is written to a client, to whom no other answer is being written, is read back by
-- the readers of this code: the status line as the version of the request and the status 200, the
-- lines behind it as the two headers, with the length of the body as the content length, and behind
-- them stands the body. The version numbers have to be no negative `int`s and below 2 ^ 31 - 48, as
-- far as the reader gets with no overflow, and the body shorter than 2 ^ 63.
pub write_response-read_back :
    (c : HttpConnection) (body : Bytes)
    → c.response ≡ []
    → c.http_request.http_version_major + b'0' < int_mod
    → c.http_request.http_version_minor + b'0' < int_mod
    → length body < 2 ^ 63
    → let text = (write_response body c).0.response in
      (parse_http_status_line no_status text
        ≡ ok (
          true,
          record {
            version_major = c.http_request.http_version_major;
            version_minor = c.http_request.http_version_minor;
            status = 200;
          },
        ))
      × (parse_http_headers no_answer (behind_line text) ≡ (
        true,
        record {
          content_type = codes "application/json";
          content_length = length body;
          location = [];
          headers = response_headers (length body);
        },
      ))
      × (behind_line (behind_line (behind_line (behind_line text))) ≡ body)
unfolding write_response
write_response-read_back c body h1 h2 h3 h4 =
    let major = c.http_request.http_version_major in
    let minor = c.http_request.http_version_minor in
    let n = length body in
    let text : (write_response body c).0.response
        ≡ line_text (response_line major minor) (lines (response_headers n) body) =
      ap (λ r. r ++ response_head major minor n body) h1
      ∙ response_head-line_text major minor n body (omega (arith, h2)) (omega (arith, h3)) in
    let head : behind_line (write_response body c).0.response ≡ lines (response_headers n) body =
      ap behind_line text ∙ behind_status major minor (lines (response_headers n) body) in
    (
      ap (parse_http_status_line no_status) text
          ∙ parse_http_status_line-line_text no_status (response_line major minor) _
              (response_line-IsLine major minor) (decimal-Fits major h2) (decimal-Fits minor h3)
              (omega arith)
          ∙ rw (number-decimal major (omega (arith, h2)), number-decimal minor (omega (arith, h3))),
      ap (parse_http_headers no_answer) head
          ∙ parse_http_headers-lines (response_headers n) no_answer body
              (type-IsHeader, (length-IsHeader n, tt))
          ∙ ap (λ a. (true, a)) (add_all-response_headers n h4),
      ap (λ t. behind_line (behind_line (behind_line t))) head ∙ behind_headers n body,
    )
