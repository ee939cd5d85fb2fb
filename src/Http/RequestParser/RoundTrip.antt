-- ===== src/Http/RequestParser/RoundTrip.antt =====
-- The requests that the parser is for, as text, and that it reads back what they say.
use avrouter.Prelude.{
  ◌≡◌, ◌≢◌, ◌∙◌, refl, List, [], ◌∷◌, ◌++◌, append_assoc, append-nil, Bytes, All, Run, ok, arith,
  ◌+◌, ◌<◌, int_mod,
}
use avrouter.Http.Chars.{is_token, is_ctl, is_digit, token-ne_space}
use avrouter.Http.Request.{Header, Request}
use avrouter.Http.RequestParser.{
  method, uri, http_version_major_start, http_version_major, http_version_minor_start,
  http_version_minor, next_digit, header_line_start, header_name, header_value, expecting_newline_3,
  accepted, Parsed, consume, parse, initial,
}
use avrouter.Http.RequestParser.Resume.{parse_more}
use avrouter.Http.RequestParser.Parts.{
  is_uri_char, is_text, AllTrue, number, with_header, parse_method, parse_uri, parse_major,
  parse_minor, parse_name, parse_value,
}

-- A request as a client means it. The version's numbers are the digits that it sends.
pub record Message : Type 0 where
  pub method : Bytes
  pub uri : Bytes
  pub major : Bytes
  pub minor : Bytes
  pub headers : List Header

pub record IsHeader (h : Header) : Type 0 where
  pub name_ne_nil : h.name ≢ []
  pub name_token : AllTrue is_token h.name
  pub value_text : AllTrue is_text h.value

pub record IsMessage (q : Message) : Type 0 where
  pub method_ne_nil : q.method ≢ []
  pub method_token : AllTrue is_token q.method
  pub uri_chars : AllTrue is_uri_char q.uri
  pub major_ne_nil : q.major ≢ []
  pub major_digits : AllTrue is_digit q.major
  pub major_fits : number q.major + b'0' < int_mod
  pub minor_ne_nil : q.minor ≢ []
  pub minor_digits : AllTrue is_digit q.minor
  pub minor_fits : number q.minor + b'0' < int_mod
  pub all_headers : All IsHeader q.headers

-- `rest` is what follows on the connection.
abbrev pub header_lines : List Header → Bytes → Bytes
header_lines [] rest = b'\r' ∷ b'\n' ∷ rest
header_lines (h ∷ hs) rest =
    h.name ++ (b':' ∷ b' ' ∷ (h.value ++ (b'\r' ∷ b'\n' ∷ header_lines hs rest)))

abbrev pub version : Bytes → Bytes → Bytes → Bytes
version major minor rest =
    b'H' ∷ b'T' ∷ b'T' ∷ b'P' ∷ b'/' ∷ (major ++ (b'.' ∷ (minor ++ (b'\r' ∷ b'\n' ∷ rest))))

abbrev pub text : Message → Bytes → Bytes
text q rest =
    q.method ++ (b' ' ∷ (q.uri ++ (b' ' ∷ version q.major q.minor (header_lines q.headers rest))))

-- A request object in which nothing has been parsed yet; the other fields may hold anything.
abbrev pub blank : Request → Request
blank r = record r { method = []; uri = []; headers = [] }

-- The object that says what the message says.
abbrev pub filled : Request → Message → Request
filled r q = record r {
  method = q.method;
  uri = q.uri;
  http_version_major = number q.major;
  http_version_minor = number q.minor;
  headers = q.headers;
}

abbrev pub done : Request → Bytes → Run Parsed
done r rest = ok (record {
  last = record { result = accepted; state = expecting_newline_3; request = r };
  rest = rest;
})

-- The fixed bytes between the parts.
module _ (r : Request) (rest : Bytes) where
  colon_space : parse header_name r (b':' ∷ b' ' ∷ rest) ≡ parse header_value r rest
  unfolding parse consume
  colon_space = refl

  line_end : parse header_value r (b'\r' ∷ b'\n' ∷ rest) ≡ parse header_line_start r rest
  unfolding parse consume
  line_end = refl

  last_line : parse header_line_start r (b'\r' ∷ b'\n' ∷ rest) ≡ done r rest
  unfolding parse consume
  last_line = refl

  http_slash :
      parse uri r (b' ' ∷ b'H' ∷ b'T' ∷ b'T' ∷ b'P' ∷ b'/' ∷ rest)
      ≡ parse http_version_major_start
          (record r { http_version_major = 0; http_version_minor = 0 })
          rest
  unfolding parse consume
  http_slash = refl

  request_line_end :
      parse http_version_minor r (b'\r' ∷ b'\n' ∷ rest) ≡ parse header_line_start r rest
  unfolding parse consume
  request_line_end = refl

module _ (r : Request) where
  parse_header_name :
      (hs : List Header) (name rest : Bytes)
      → name ≢ []
      → AllTrue is_token name
      → parse header_line_start (record r { headers = hs }) (name ++ rest)
        ≡ parse header_name (with_header r hs name []) rest
  unfolding consume is_ctl
  parse_header_name hs [] rest ne h = absurd (ne refl)
  parse_header_name hs (c ∷ cs) rest ne h =
      parse_more header_line_start header_name _ (with_header r hs (c ∷ []) []) c (cs ++ rest)
        (ground (arith, token-ne_space c h.0))
      ∙ parse_name r hs cs (c ∷ []) rest h.1

  parse_header :
      (hs : List Header) (h : Header) (rest : Bytes)
      → IsHeader h
      → parse header_line_start
          (record r { headers = hs })
          (h.name ++ (b':' ∷ b' ' ∷ (h.value ++ (b'\r' ∷ b'\n' ∷ rest))))
        ≡ parse header_line_start (record r { headers = hs ++ h ∷ [] }) rest
  parse_header hs h rest v =
      parse_header_name hs h.name _ v.name_ne_nil v.name_token
      ∙ colon_space (with_header r hs h.name []) _
      ∙ parse_value r hs h.name h.value [] _ v.value_text
      ∙ line_end (with_header r hs h.name h.value) rest

  parse_headers :
      (hs more : List Header) (rest : Bytes)
      → All IsHeader more
      → parse header_line_start (record r { headers = hs }) (header_lines more rest)
        ≡ done (record r { headers = hs ++ more }) rest
  parse_headers hs [] rest v = rw append-nil (last_line (record r { headers = hs }) rest)
  parse_headers hs (h ∷ more) rest v =
      parse_header hs h _ v.0 ∙ parse_headers (hs ++ h ∷ []) more rest v.1 ∙ rw append_assoc

  parse_version :
      (major minor rest : Bytes)
      → major ≢ []
      → minor ≢ []
      → AllTrue is_digit major
      → AllTrue is_digit minor
      → number major + b'0' < int_mod
      → number minor + b'0' < int_mod
      → parse uri r (b' ' ∷ version major minor rest)
        ≡ parse header_line_start
            (record r { http_version_major = number major; http_version_minor = number minor })
            rest
  unfolding consume next_digit is_digit
  parse_version [] minor rest ne _ h k f g = absurd (ne refl)
  parse_version (a ∷ major) [] rest _ ne h k f g = absurd (ne refl)
  parse_version (a ∷ major) (b ∷ minor) rest _ _ h k f g =
      http_slash r _
      ∙ parse_more http_version_major_start http_version_major _
          (record r { http_version_major = number (a ∷ []); http_version_minor = 0 }) a _
          (ground arith)
      ∙ parse_major (record r { http_version_minor = 0 }) major (number (a ∷ [])) _ h.1 f
      ∙ parse_more http_version_major http_version_minor_start _ _ b'.' _ refl
      ∙ parse_more http_version_minor_start http_version_minor _
          (record r {
            http_version_major = number (a ∷ major);
            http_version_minor = number (b ∷ []);
          })
          b _ (ground arith)
      ∙ parse_minor (record r { http_version_major = number (a ∷ major) }) minor (number (b ∷ [])) _
          k.1 g
      ∙ request_line_end _ rest

  parse_method_uri :
      (m u rest : Bytes)
      → m ≢ []
      → AllTrue is_token m
      → AllTrue is_uri_char u
      → parse initial (blank r) (m ++ (b' ' ∷ (u ++ rest)))
        ≡ parse uri (record r { method = m; uri = u; headers = [] }) rest
  unfolding consume
  parse_method_uri [] u rest ne h k = absurd (ne refl)
  parse_method_uri (c ∷ m) u rest ne h k =
      parse_more initial method (blank r) (record (blank r) { method = c ∷ [] }) c _ (ground arith)
      ∙ parse_method (blank r) m (c ∷ []) _ h.1
      ∙ parse_more method uri _ _ b' ' _ refl
      ∙ parse_uri (record (blank r) { method = c ∷ m }) u [] rest k

-- A well-formed request, with a version whose numbers are below 2 ^ 31 - 48, is accepted, the
-- request object says what the message says, and the bytes behind it are left for the next call.
pub parse-text :
    (r : Request) (q : Message) (rest : Bytes)
    → IsMessage q
    → parse initial (blank r) (text q rest) ≡ done (filled r q) rest
parse-text r q rest v =
    parse_method_uri r q.method q.uri _ v.method_ne_nil v.method_token v.uri_chars
    ∙ parse_version (record r { method = q.method; uri = q.uri; headers = [] }) q.major q.minor _
        v.major_ne_nil v.minor_ne_nil v.major_digits v.minor_digits v.major_fits v.minor_fits
    ∙ parse_headers (record (filled r q) { headers = [] }) [] q.headers rest v.all_headers
