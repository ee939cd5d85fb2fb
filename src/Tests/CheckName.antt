-- ===== src/Tests/CheckName.antt =====
-- A client that asks over HTTP whether a name is free.
use avrouter.Prelude.{
  ◌≡◌, refl, true, false, if◌then◌else◌, List, [], ◌∷◌, ◌++◌, Bytes, codes, length, ok, arith,
  equal,
}
use avrouter.Prelude.Decimal.{decimal_from}
use avrouter.Prelude.Dict.{find}
use avrouter.Http.Chars.{is_char, is_ctl, is_tspecial, is_digit, is_token}
use avrouter.Http.Request.{Header, normalise, header_value, extract_u64}
use avrouter.Http.RequestParser.Parts.{is_text, is_uri_char, all-AllTrue}
use avrouter.Http.RequestParser.RoundTrip.{Message, IsMessage, IsHeader, text}
use avrouter.Http.Form.RoundTrip.{form_text}
use avrouter.Http.StatusLine.{parse_http_status_line}
use avrouter.Http.Headers.{parse_http_headers}
use avrouter.HttpConnection.{handle, read_headers, write, handle_read_headers, write_response}
use avrouter.HttpConnection.Requests.{fresh}
use avrouter.HttpConnection.Posts.{posted}
use avrouter.HttpConnection.Responses.{
  behind_line, no_status, no_answer, response_headers, write_response-read_back,
}
use avrouter.Database.{availability_check}
use avrouter.HttpServer.{handle_request}
use avrouter.Register.Httpd.{HttpWorld, answer_json}
use avrouter.Main.CheckName.{IsCheck, serves, handlers, asked, answer, keeps, check_name-answered}
use avrouter.Escape.Path.{escape_path}
use avrouter.Escape.Path as Escape
use avrouter.Tests.RequestParser.{fresh_request}
use avrouter.Tests.HttpForm.{no_match, user_field, user_field-IsField}
use avrouter.Tests.HttpServer.{new_client}
use avrouter.Tests.Register.{users}

abbrev length_header : Header
length_header = record { name = codes "Content-Length"; value = codes "10" }

abbrev check : Message
check = record {
  method = codes "POST";
  uri = codes "/username_availability_check.jsp";
  major = codes "1";
  minor = codes "1";
  headers = length_header ∷ [];
}

length_header-IsHeader : IsHeader length_header
unfolding is_char is_ctl is_tspecial
length_header-IsHeader = record {
  name_ne_nil = λ e. cc;
  name_token = all-AllTrue is_token (codes "Content-Length") refl;
  value_text = all-AllTrue is_text (codes "10") refl;
}

check-IsMessage : IsMessage check
unfolding is_char is_ctl is_tspecial is_digit
check-IsMessage = record {
  method_ne_nil = λ e. cc;
  method_token = all-AllTrue is_token (codes "POST") refl;
  uri_chars = all-AllTrue is_uri_char (codes "/username_availability_check.jsp") refl;
  major_ne_nil = λ e. cc;
  major_digits = (refl, tt);
  major_fits = omega arith;
  minor_ne_nil = λ e. cc;
  minor_digits = (refl, tt);
  minor_fits = omega arith;
  all_headers = (length_header-IsHeader, tt);
}

abbrev fields : List (Bytes × Bytes)
fields = user_field ∷ []

check-IsCheck : IsCheck users no_match no_match fresh_request check fields
unfolding normalise header_value extract_u64 equal escape_path Escape.is_char Escape.is_tspecial
check-IsCheck = record {
  message = check-IsMessage;
  post = refl;
  uri = refl;
  size = refl;
  some_body = omega arith;
  small_body = omega arith;
  no_boundary = refl;
  escapable = (user_field-IsField, tt);
  major = omega arith;
  minor = omega arith;
}

-- Nobody is registered, and every client has sent the request.
abbrev world : HttpWorld users
world = record {
  table = [];
  clients = λ c. asked users no_match no_match fresh_request check fields [];
  effects = [];
}

answer-free : answer users no_match no_match user_field.1 world ≡ codes "{\"code\" : \"1\"}"
unfolding answer_json decimal_from find equal availability_check
answer-free = refl

check_name-answered_example :
    let req = posted fresh_request check (form_text fields) in
    (handle_read_headers
        (serves users no_match no_match)
        false
        (length (text check []))
        (fresh (serves users no_match no_match) fresh_request check (form_text fields ++ []))
      ≡ ok (
        asked users no_match no_match fresh_request check fields [],
        handle req ∷ (if keeps users no_match no_match check then read_headers ∷ [] else []),
      ))
    × (w' : HttpWorld users) × (sent : Bytes) × (handle_request
          (handlers users no_match no_match)
          req
          3
          world
        ≡ ok (true, w'))
    × (w'.effects ≡ (3, write sent) ∷ [])
    × (parse_http_status_line no_status sent
        ≡ ok (
          true,
          record {
            version_major = req.http_version_major;
            version_minor = req.http_version_minor;
            status = 200;
          },
        ))
    × (behind_line (behind_line (behind_line (behind_line sent)))
        ≡ answer users no_match no_match user_field.1 world)
check_name-answered_example =
    check_name-answered users no_match no_match fresh_request check [] user_field.1 [] [] 3 world
      check-IsCheck tt refl

write_response-read_back_example :
    let sent = (write_response (codes "hi") (new_client 0)).0.response in
    (parse_http_status_line no_status sent
      ≡ ok (true, record { version_major = 7; version_minor = 7; status = 200 }))
    × (parse_http_headers no_answer (behind_line sent) ≡ (
      true,
      record {
        content_type = codes "application/json";
        content_length = 2;
        location = [];
        headers = response_headers 2;
      },
    ))
    × (behind_line (behind_line (behind_line (behind_line sent))) ≡ codes "hi")
write_response-read_back_example =
    write_response-read_back (new_client 0) (codes "hi") refl (omega arith) (omega arith)
      (omega arith)
