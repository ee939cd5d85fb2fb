-- ===== src/Main/CheckName.antt =====
-- The check of a name over HTTP, from the bytes that a client sends to the bytes that it gets.
use avrouter.Prelude.{
  ℕ, ◌+◌, ◌<◌, ◌^◌, ◌≡◌, ◌≢◌, equal_iff, equal_refl, refl, ap, ◌∙◌, Bool, true, false, List, [],
  ◌∷◌, ◌++◌, Option, none, some, Bytes, All, codes, equal, length, if◌then◌else◌, ==_refl, ok,
  int_mod, arith,
}
use avrouter.Prelude.Decimal.{decimal_from}
use avrouter.Prelude.Dict.{Dict, find, assign}
use avrouter.Database.{Soci, availability_check}
use avrouter.Http.Request.{Request, normalise, header_value, lower, lower_names}
use avrouter.Http.RequestParser.RoundTrip.{Message, IsMessage, text, filled}
use avrouter.Http.Form.{form_value}
use avrouter.Http.Form.RoundTrip.{IsField, form_text, http_form-form_text}
use avrouter.Http.StatusLine.{parse_http_status_line}
use avrouter.HttpConnection.{
  HttpConnection, write, handle, read_headers, handle_read_headers, write_response,
}
use avrouter.HttpConnection.Requests.{fresh, parsed}
use avrouter.HttpConnection.Posts.{posted, handle_read_headers-post}
use avrouter.HttpConnection.Responses.{behind_line, no_status, write_response-read_back}
use avrouter.HttpServer.{HttpCallback, handle_request, add_uri_handler}
use avrouter.Register.Httpd.{HttpWorld, answer_json, respond, availability_check_httpd}
use avrouter.Main.{check_uri, uris}

abbrev pub is_some : {V : Type 0} → Option V → Bool
is_some none = false
is_some (some _) = true

module _ (soci : Soci) (boundary_of name_of : Bytes → Option Bytes) where
  abbrev pub handlers : Dict (HttpCallback (HttpWorld soci))
  handlers = uris (availability_check_httpd soci boundary_of name_of)

  -- Whether `handle_request` finds a handler.
  abbrev pub serves : Request → Bool
  serves req = is_some (find req.uri handlers)

  find-handlers : find check_uri handlers ≡ some (availability_check_httpd soci boundary_of name_of)
  unfolding find uris add_uri_handler assign equal
  find-handlers = refl

  -- A POST of a form for the uri, as a client of this code would escape it.
  pub record IsCheck (r : Request) (q : Message) (fields : List (Bytes × Bytes)) : Type 0 where
    pub message : IsMessage q
    pub post : equal (normalise (filled r q)).method (codes "post") ≡ true
    pub uri : (normalise (filled r q)).uri ≡ check_uri
    pub size : (normalise (filled r q)).content_length ≡ length (form_text fields)
    pub some_body : 0 < length (form_text fields)
    pub small_body : length (form_text fields) < 65536
    pub no_boundary :
        boundary_of (header_value (codes "content-type") (normalise (filled r q)).headers) ≡ none
    pub escapable : All IsField fields
    pub major : (normalise (filled r q)).http_version_major + b'0' < int_mod
    pub minor : (normalise (filled r q)).http_version_minor + b'0' < int_mod

  -- The client once its request is parsed.
  abbrev pub asked : Request → Message → List (Bytes × Bytes) → Bytes → HttpConnection
  asked r q fields rest = record (parsed serves r q rest) {
    http_request = posted r q (form_text fields);
  }

  -- The client asks to keep the connection.
  abbrev pub keeps : Message → Bool
  keeps q =
      equal (lower (header_value (codes "connection") (lower_names q.headers))) (codes "keep-alive")

  asks :
      (r : Request) (q : Message) (fields : List (Bytes × Bytes)) (rest : Bytes)
      → IsCheck r q fields
      → handle_read_headers serves false
          (length (text q []))
          (fresh serves r q (form_text fields ++ rest))
        ≡ ok (
          asked r q fields rest,
          handle (posted r q (form_text fields))
              ∷ (if (normalise (filled r q)).keep_alive then read_headers ∷ [] else []),
        )
  asks r q fields rest h =
      let served : serves (posted r q (form_text fields)) ≡ true =
        ap is_some (ap (λ u. find u handlers) h.uri ∙ find-handlers) in
      handle_read_headers-post serves r q (form_text fields) rest h.message h.post h.size
        h.some_body h.small_body
      ∙ rw served

  -- What is answered: whether the name is free.
  abbrev pub answer : Bytes → HttpWorld soci → Bytes
  answer name w = answer_json (availability_check soci name w.table)

  -- The fields of a form in which the first field `username` has this value.
  abbrev pub form_of : List (Bytes × Bytes) → Bytes → List (Bytes × Bytes) → List (Bytes × Bytes)
  form_of before name after = before ++ (codes "username", name) ∷ after

  -- The value of the first field that is named so.
  form_value-first :
      (before : List (Bytes × Bytes)) (name : Bytes) (after : List (Bytes × Bytes))
      → All (λ field. field.0 ≢ codes "username") before
      → form_value (codes "username") (form_of before name after) ≡ name
  unfolding form_value
  form_value-first [] name after others = rw (equal_refl (codes "username"))
  form_value-first ((key, value) ∷ before) name after others =
      let other : equal key (codes "username") ≡ false =
        ground (arith, equal_iff key (codes "username"), others.0) in
      rw other (form_value-first before name after others.1)

  answers :
      (r : Request) (q : Message) (before : List (Bytes × Bytes)) (name : Bytes)
      (after : List (Bytes × Bytes)) (conn : ℕ) (w : HttpWorld soci)
      → IsCheck r q (form_of before name after)
      → All (λ field. field.0 ≢ codes "username") before
      → handle_request handlers (posted r q (form_text (form_of before name after))) conn w
        ≡ ok (true, respond soci (answer name w) conn w)
  unfolding handle_request availability_check_httpd
  answers r q before name after conn w h others = rw (
    h.uri,
    find-handlers,
    http_form-form_text boundary_of name_of
        (header_value (codes "content-type") (normalise (filled r q)).headers)
        (form_of before name after) h.no_boundary h.escapable,
    form_value-first before name after others,
  )

  respond-client :
      (body : Bytes) (conn : ℕ) (w : HttpWorld soci)
      → (respond soci body conn w).clients conn ≡ (write_response body (w.clients conn)).0
  unfolding respond
  respond-client body conn w = rw (==_refl conn)

  length-answer_json : (free : Bool) → length (answer_json free) < 2 ^ 63
  unfolding answer_json decimal_from
  length-answer_json true = omega arith
  length-answer_json false = omega arith

  -- A client of the HTTP server posts a form, escaped as this code escapes, to the uri that `main`
  -- registers, as its first request, and the body has come with it; in the form a field `username`
  -- has a name, and no field before it is a `username`. The request is handed to the server, which
  -- has a handler for it, and the connection reads on if the first header whose name begins with
  -- `connection` has the value keep-alive, both in any capitals. The handler asks asio for one more
  -- operation, a write to this client. What it writes is a status line with the version of the
  -- request and the status 200, and behind it and its two headers the answer of the database to the
  -- name.
  pub check_name-answered :
      (r : Request) (q : Message) (before : List (Bytes × Bytes)) (name : Bytes)
      (after : List (Bytes × Bytes)) (rest : Bytes) (conn : ℕ) (w : HttpWorld soci)
      → IsCheck r q (form_of before name after)
      → All (λ field. field.0 ≢ codes "username") before
      → w.clients conn ≡ asked r q (form_of before name after) rest
      → let req = posted r q (form_text (form_of before name after)) in
        (handle_read_headers serves false
            (length (text q []))
            (fresh serves r q (form_text (form_of before name after) ++ rest))
          ≡ ok (
            asked r q (form_of before name after) rest,
            handle req ∷ (if keeps q then read_headers ∷ [] else []),
          ))
        × (w' : HttpWorld soci) × (sent : Bytes) × (handle_request handlers req conn w
            ≡ ok (true, w'))
        × (w'.effects ≡ w.effects ++ (conn, write sent) ∷ [])
        × (parse_http_status_line no_status sent
            ≡ ok (
              true,
              record {
                version_major = req.http_version_major;
                version_minor = req.http_version_minor;
                status = 200;
              },
            ))
        × (behind_line (behind_line (behind_line (behind_line sent))) ≡ answer name w)
  unfolding respond write_response normalise
  check_name-answered r q before name after rest conn w h others e =
      let free = availability_check soci name w.table in
      let fields = form_of before name after in
      let client = asked r q fields rest in
      let (line, headers, behind) =
        write_response-read_back client (answer name w) refl h.major h.minor
          (length-answer_json free) in
      (
        asks r q fields rest h,
        respond soci (answer name w) conn w,
        (write_response (answer name w) client).0.response,
        answers r q before name after conn w h others,
        rw e,
        line,
        behind,
      )
