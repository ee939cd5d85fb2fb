-- ===== src/HttpServer.antt =====
-- src/http_server.cpp: the accepting of HTTP clients, and the table of the handlers of uris. A
-- handler works on `W`, the state of all modules. The resolver and the acceptor say which of their
-- calls fail; the lock of the table, which nothing else takes, is not modelled, and `BOOST_ASSERT`
-- is empty, as in a release build.
pub mod Shutdown
use avrouter.Prelude.{
  ℕ, suc, Bool, true, false, not, ◌||◌, ◌&&◌, List, [], ◌∷◌, Option, none, some, Bytes, Run, ok,
  ◌>>=◌, if◌then◌else◌,
}
use avrouter.Prelude.Dict.{Dict, find, assign}
use avrouter.Http.Request.{Request}
use avrouter.Router.{
  Failures, ServerEffect, accept, start_connection, wait, cancel_timer, close_acceptor,
  stop_all_connections,
}

-- `connection` is the number of `m_connection`; the connections are numbered as they are made.
pub record HttpServer : Type 0 where
  pub is_open : Bool
  pub listening : Bool
  pub made : ℕ
  pub connection : ℕ

unfoldable pub construct : Failures → HttpServer × List ServerEffect
construct f =
    let opened = not f.resolve && not f.open_protocol in
    let listening = opened && not f.set_option && not f.bind && not f.listen in
    (
      record { is_open = opened; listening = listening; made = 0; connection = 0 },
      if listening then wait ∷ [] else [],
    )

-- A new connection to accept into.
abbrev accept_next : HttpServer → HttpServer × List ServerEffect
accept_next s = (record s { made = suc s.made; connection = s.made }, accept s.made ∷ [])

unfoldable pub start : HttpServer → HttpServer × List ServerEffect
start s = if not s.listening then (s, []) else accept_next s

unfoldable pub stop : HttpServer → HttpServer × List ServerEffect
stop s = (record s { is_open = false }, close_acceptor ∷ stop_all_connections ∷ cancel_timer ∷ [])

unfoldable pub handle_accept : Bool → HttpServer → HttpServer × List ServerEffect
handle_accept error s =
    let (s', effects) = accept_next s in
    if not s.is_open || error then (s, []) else (s', start_connection s.connection ∷ effects)

unfoldable pub on_tick : Bool → HttpServer → HttpServer × List ServerEffect
on_tick error s = (s, if error then [] else wait ∷ [])

abbrev pub HttpCallback : Type 0 → Type 0
HttpCallback W = Request → ℕ → W → Run W

module _ {W : Type 0} where
  abbrev pub call_handler : Option (HttpCallback W) → Request → ℕ → W → Run (Bool × W)
  call_handler none req conn w = ok (false, w)
  call_handler (some cb) req conn w = cb req conn w >>= λ w'. ok (true, w')

  unfoldable pub handle_request : Dict (HttpCallback W) → Request → ℕ → W → Run (Bool × W)
  handle_request callbacks req conn w = call_handler (find req.uri callbacks) req conn w

  abbrev pub add_handler :
      Option (HttpCallback W)
      → Bytes
      → HttpCallback W
      → Dict (HttpCallback W)
      → Bool × Dict (HttpCallback W)
  add_handler none uri cb callbacks = (true, assign uri cb callbacks)
  add_handler (some _) uri cb callbacks = (false, callbacks)

  unfoldable pub add_uri_handler :
      Bytes → HttpCallback W → Dict (HttpCallback W) → Bool × Dict (HttpCallback W)
  add_uri_handler uri cb callbacks = add_handler (find uri callbacks) uri cb callbacks
