-- ===== src/Tests/RequestParser.antt =====
-- The request parser on a small request.
use avrouter.Prelude.{◌≡◌, refl, [], ◌∷◌, false, Bytes, codes, fault, int_overflow, arith}
use avrouter.Http.Chars.{is_char, is_ctl, is_tspecial, is_digit}
use avrouter.Http.Request.{Header, Request}
use avrouter.Http.RequestParser.{on_back, change_back, next_digit, consume, parse, initial}
use avrouter.Http.RequestParser.RoundTrip.{
  Message, IsMessage, IsHeader, text, blank, filled, done, parse-text,
}
use avrouter.Http.RequestParser.Safety.{Reads, parse-Reads}

abbrev pub fresh_request : Request
fresh_request = record {
  method = [];
  uri = [];
  http_version_major = 7;
  http_version_minor = 7;
  headers = [];
  content_length = 0;
  keep_alive = false;
  body = [];
}

abbrev host : Header
host = record { name = codes "Host"; value = codes "a b" }

abbrev pub get : Message
get = record {
  method = codes "GET";
  uri = codes "/x";
  major = codes "1";
  minor = codes "1";
  headers = host ∷ [];
}

abbrev get_text : Bytes
get_text = codes "GET /x HTTP/1.1\r\nHost: a b\r\n\r\n"

text-get : text get [] ≡ get_text
text-get = refl

parse-get_text : parse initial fresh_request get_text ≡ done (filled fresh_request get) []
unfolding parse consume next_digit on_back change_back is_char is_ctl is_tspecial is_digit
parse-get_text = refl

host-IsHeader : IsHeader host
unfolding is_char is_ctl is_tspecial
host-IsHeader = record {
  name_ne_nil = λ e. cc;
  name_token = (refl, (refl, (refl, (refl, tt))));
  value_text = (refl, (refl, (refl, tt)));
}

pub get-IsMessage : IsMessage get
unfolding is_char is_ctl is_tspecial is_digit
get-IsMessage = record {
  method_ne_nil = λ e. cc;
  method_token = (refl, (refl, (refl, tt)));
  uri_chars = (refl, (refl, tt));
  major_ne_nil = λ e. cc;
  major_digits = (refl, tt);
  major_fits = omega arith;
  minor_ne_nil = λ e. cc;
  minor_digits = (refl, tt);
  minor_fits = omega arith;
  all_headers = (host-IsHeader, tt);
}

parse-text_example :
    parse initial (blank fresh_request) (text get (codes "GET"))
    ≡ done (filled fresh_request get) (codes "GET")
parse-text_example = parse-text fresh_request get (codes "GET") get-IsMessage

-- A version that an `int` does not hold.
long_version : parse initial fresh_request (codes "G / HTTP/2147483648") ≡ fault int_overflow
unfolding parse consume next_digit is_char is_ctl is_tspecial is_digit
long_version = refl

parse-Reads_example : Reads (parse initial fresh_request (codes "GET\n: "))
parse-Reads_example = parse-Reads initial fresh_request (codes "GET\n: ") tt
