-- ===== src/HttpConnection.antt =====
-- src/http_connection.cpp: one client of the HTTP server, from the bytes that come to the handing
-- of requests to the server and the writing of their answers.
pub mod Requests
pub mod Posts
pub mod Responses
use avrouter.Prelude.{
  ℕ, suc, ◌+◌, ◌-◌, Bool, true, false, not, ◌||◌, ◌&&◌, List, [], ◌∷◌, ◌++◌, Bytes, codes, equal,
  length, take, drop, replicate, if◌then◌else◌, leb, ◌==◌, Run, ok, ◌>>=◌,
}
use avrouter.Prelude.Decimal.{decimal, decimal_int}
use avrouter.Http.Request.{Request, normalise}
use avrouter.Http.RequestParser.{
  State, initial, Tribool, indeterminate, refused, accepted, Step, Parsed, parse,
}

-- `request` is m_request, the bytes that have come and are not yet consumed, and `response` is
-- m_response, from which `async_write` takes the bytes it has written.
pub record HttpConnection : Type 0 where
  pub request : Bytes
  pub parser : State
  pub http_request : Request
  pub response : Bytes
  pub abort : Bool

-- The calls of others.
pub data HttpEffect : Type 0 where
  no_delay : HttpEffect
  -- `async_read_until` an empty line, for `handle_read_headers`
  read_headers : HttpEffect
  -- `async_read` of so many bytes, for `handle_read_body`
  read_body : ℕ → HttpEffect
  -- `async_write` of all of m_response, for `handle_write_http`
  write : Bytes → HttpEffect
  -- `m_server.handle_request`
  handle : Request → HttpEffect
  -- `m_connection_manager->stop`
  stop_me : HttpEffect
  close_socket : HttpEffect

unfoldable pub start : HttpConnection → HttpConnection × List HttpEffect
start c = (record c { request = []; abort = false }, no_delay ∷ read_headers ∷ [])

unfoldable pub stop : HttpConnection → HttpConnection × List HttpEffect
stop c = (record c { abort = true }, close_socket ∷ [])

-- `operator<<` of the head of an answer.
unfoldable pub response_head : ℕ → ℕ → ℕ → Bytes → Bytes
response_head major minor size rest =
    codes "HTTP/"
    ++ (decimal_int major
        ++ (codes "."
            ++ (decimal_int minor
                ++ (codes " 200 OK\r\n"
                    ++ (codes "Content-Type: application/json\r\n"
                        ++ (codes "Content-Length: "
                            ++ (decimal size ++ (codes "\r\n" ++ (codes "\r\n" ++ rest)))))))))

unfoldable pub write_response : Bytes → HttpConnection → HttpConnection × List HttpEffect
write_response body c =
    let req = c.http_request in
    let out =
      c.response
      ++ response_head req.http_version_major req.http_version_minor (length body) body in
    (record c { response = out }, write out ∷ [])

-- With what the server answers to a request: whether there is a handler for its uri.
module _ (handles : Request → Bool) where
  -- The end of both handlers.
  unfoldable pub serve : HttpConnection → HttpConnection × List HttpEffect
  serve c = (
    c,
    handle c.http_request
        ∷ (if not (handles c.http_request)
            then stop_me ∷ []
            else if c.http_request.keep_alive
            then read_headers ∷ []
            else []),
  )

  unfoldable pub handle_read_body : Bool → HttpConnection → HttpConnection × List HttpEffect
  unfolding serve
  handle_read_body error c =
      let n = c.http_request.content_length in
      let body = take n c.request ++ replicate (n - length c.request) 0 in
      if error || c.abort
      then (c, stop_me ∷ [])
      else serve (record c {
        request = drop n c.request;
        http_request = record c.http_request { body = body };
      })

  unfoldable pub serve_post : HttpConnection → HttpConnection × List HttpEffect
  serve_post c =
      let n = c.http_request.content_length in
      if n == 0 || leb 65536 n
      then (c, stop_me ∷ [])
      else if leb n (length c.request)
      then handle_read_body false c
      else (c, read_body (n - length c.request) ∷ [])

  unfoldable pub serve_parsed : HttpConnection → Tribool → HttpConnection × List HttpEffect
  serve_parsed c accepted =
      let normal = record c { http_request = normalise c.http_request } in
      if equal normal.http_request.method (codes "post") then serve_post normal else serve normal
  serve_parsed c _ = (c, stop_me ∷ [])

  -- The buffer has a zero behind the bytes; the parser may stop before its end.
  unfoldable pub handle_read_headers :
      Bool → ℕ → HttpConnection → Run (HttpConnection × List HttpEffect)
  handle_read_headers error bytes_transferred c =
      let buffer =
        take bytes_transferred c.request
        ++ (replicate (bytes_transferred - length c.request) 0 ++ 0 ∷ []) in
      let handled = parse c.parser c.http_request buffer >>= λ p. ok (
        serve_parsed
          (record c {
            request = drop bytes_transferred c.request;
            parser = p.last.state;
            http_request = p.last.request;
          })
          p.last.result) in
      if error || c.abort then ok (c, stop_me ∷ []) else handled

  unfoldable pub handle_write_http : Bool → HttpConnection → HttpConnection × List HttpEffect
  handle_write_http error c =
      if error || c.abort || not c.http_request.keep_alive then (c, stop_me ∷ []) else (c, [])
