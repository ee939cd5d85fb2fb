-- ===== src/HttpConnection/Requests.antt =====
-- Whole requests on a connection.
use avrouter.Prelude.{
  ℕ, suc, ◌-◌, ◌≡◌, ◌≢◌, refl, sym, ap, ◌∙◌, Bool, false, List, [], ◌∷◌, ◌++◌, append_assoc, Bytes,
  length, take, drop, replicate, take_prefix, drop_prefix, length-append, ok, arith,
}
use avrouter.Http.Request.{Header, Request, normalise}
use avrouter.Http.RequestParser.{initial, expecting_newline_3, accepted, refused, parse, consume}
use avrouter.Http.RequestParser.RoundTrip.{
  Message, IsMessage, text, header_lines, blank, filled, parse-text,
}
use avrouter.HttpConnection.{HttpConnection, stop_me, handle_read_headers, serve_parsed}

header_lines-append :
    (hs : List Header) (rest : Bytes) → header_lines hs rest ≡ header_lines hs [] ++ rest
header_lines-append [] rest = refl
header_lines-append (h ∷ hs) rest = rw (header_lines-append hs rest, append_assoc, append_assoc)

text-append : (q : Message) (rest : Bytes) → text q rest ≡ text q [] ++ rest
text-append q rest =
    rw (header_lines-append q.headers rest, append_assoc, append_assoc, append_assoc, append_assoc)

module _ (handles : Request → Bool) where
  -- A connection that has parsed nothing, and has got a whole request and more.
  abbrev pub fresh : Request → Message → Bytes → HttpConnection
  fresh r q rest = record {
    request = text q rest;
    parser = initial;
    http_request = blank r;
    response = [];
    abort = false;
  }

  -- The same connection with that request parsed and made normal.
  abbrev pub parsed : Request → Message → Bytes → HttpConnection
  parsed r q rest = record {
    request = rest;
    parser = expecting_newline_3;
    http_request = normalise (filled r q);
    response = [];
    abort = false;
  }

  pub read_step :
      (r : Request) (q : Message) (rest : Bytes)
      → IsMessage q
      → handle_read_headers handles false (length (text q [])) (fresh r q rest)
        ≡ ok
            (serve_parsed handles (record (parsed r q rest) { http_request = filled r q }) accepted)
  unfolding handle_read_headers
  read_step r q rest v =
      let n = length (text q []) in
      let got : take n (text q rest) ≡ text q [] =
        ap (take n) (text-append q rest) ∙ take_prefix (text q []) rest n refl in
      let left : drop n (text q rest) ≡ rest =
        ap (drop n) (text-append q rest) ∙ drop_prefix (text q []) rest n refl in
      let none_short : n - length (text q rest) ≡ 0 =
        omega (arith, ap length (text-append q rest), length-append (text q []) rest) in
      rw (
        handle_read_headers,
        got,
        left,
        none_short,
        sym (text-append q (0 ∷ [])),
        parse-text r q (0 ∷ []) v,
      )

  refused_next :
      (r : Request) (d : ℕ) (ds : Bytes)
      → d ≢ b'\n'
      → parse expecting_newline_3 r (d ∷ ds)
        ≡ ok (record {
          last = record { result = refused; state = expecting_newline_3; request = r };
          rest = ds;
        })
  unfolding parse consume
  refused_next r d ds h = ground arith

  -- A connection whose parser is where a whole request has left it.
  abbrev pub used : Request → Bytes → HttpConnection
  used r input = record {
    request = input;
    parser = expecting_newline_3;
    http_request = r;
    response = [];
    abort = false;
  }

  -- Once a request has been parsed on a connection, whatever comes next on it, but for a newline,
  -- gets it stopped, and no second request is handed to the server.
  pub handle_read_headers-used :
      (r : Request) (d : ℕ) (ds : Bytes) (k : ℕ)
      → d ≢ b'\n'
      → handle_read_headers handles false (suc k) (used r (d ∷ ds))
        ≡ ok (used r (drop k ds), stop_me ∷ [])
  unfolding handle_read_headers serve_parsed
  handle_read_headers-used r d ds k h =
      rw (refused_next r d (take k ds ++ (replicate (suc k - suc (length ds)) 0 ++ 0 ∷ [])) h)
