-- ===== src/HttpConnection/Posts.antt =====
-- A POST that has come with its body.
use avrouter.Prelude.{
  ◌-◌, ◌<◌, ◌≡◌, refl, ◌∙◌, ap, Bool, true, false, not, [], ◌∷◌, ◌++◌, append-nil, Bytes, codes,
  equal, length, length-append, take_prefix, drop_prefix, if◌then◌else◌, leb, ◌==◌, ok, arith,
}
use avrouter.Http.Request.{Request, normalise}
use avrouter.Http.RequestParser.RoundTrip.{Message, IsMessage, text, filled}
use avrouter.HttpConnection.{
  HttpConnection, stop_me, handle, read_headers, handle_read_headers, handle_read_body,
  serve_parsed, serve_post, serve,
}
use avrouter.HttpConnection.Requests.{fresh, parsed, read_step}

-- A request made normal, with the body behind it.
abbrev pub posted : Request → Message → Bytes → Request
posted r q body = record (normalise (filled r q)) { body = body }

module _ (handles : Request → Bool) (r : Request) (q : Message) (body rest : Bytes) where
  abbrev with_body : HttpConnection
  with_body = parsed handles r q (body ++ rest)

  whole_body :
      (normalise (filled r q)).content_length ≡ length body
      → handle_read_body handles false with_body
        ≡ serve handles (record (parsed handles r q rest) { http_request = posted r q body })
  unfolding handle_read_body
  whole_body h =
      let none_short : length body - length (body ++ rest) ≡ 0 =
        omega (arith, length-append body rest) in
      rw (
        h,
        none_short,
        take_prefix body rest (length body) refl,
        drop_prefix body rest (length body) refl,
        append-nil,
      )

  post_step :
      (normalise (filled r q)).content_length ≡ length body
      → 0 < length body
      → length body < 65536
      → serve_post handles with_body
        ≡ serve handles (record (parsed handles r q rest) { http_request = posted r q body })
  unfolding serve_post
  post_step h low high =
      let n = (normalise (filled r q)).content_length in
      let some : (n == 0) ≡ false = ground (arith, low, h) in
      let small : leb 65536 n ≡ false = ground (arith, high, h) in
      let got : leb n (length (body ++ rest)) ≡ true = ground (arith, length-append body rest, h) in
      rw (some, small, got) (whole_body h)

  -- A POST, as the first on its connection, whose content length is that of the body that has come
  -- with it, is handed to the server with that body, if this has between 1 and 65535 bytes; the
  -- bytes behind it stay.
  pub handle_read_headers-post :
      IsMessage q
      → equal (normalise (filled r q)).method (codes "post") ≡ true
      → (normalise (filled r q)).content_length ≡ length body
      → 0 < length body
      → length body < 65536
      → handle_read_headers handles false (length (text q [])) (fresh handles r q (body ++ rest))
        ≡ ok (
          record (parsed handles r q rest) { http_request = posted r q body },
          handle (posted r q body)
              ∷ (if not (handles (posted r q body))
                  then stop_me ∷ []
                  else if (normalise (filled r q)).keep_alive
                  then read_headers ∷ []
                  else []),
        )
  unfolding serve_parsed serve
  handle_read_headers-post v post h low high =
      read_step handles r q (body ++ rest) v ∙ rw post (ap ok (post_step h low high))
