-- ===== src/Tests/HttpServer.antt =====
-- The HTTP server over a few events.
use avrouter.Prelude.{ℕ, ◌≡◌, true, false, List, [], ◌∷◌, ◌++◌}
use avrouter.ConnectionManager.{member}
use avrouter.HttpConnection.{HttpConnection}
use avrouter.Router.{Failures}
use avrouter.HttpServer.Shutdown.{
  Event, accepted, ticked, closed, stop_asked, serving, run, run-stopped,
}
use avrouter.Http.RequestParser.{initial}
use avrouter.Tests.RequestParser.{fresh_request}

abbrev pub no_failure : Failures
no_failure = record {
  resolve = false;
  open_protocol = false;
  set_option = false;
  bind = false;
  listen = false;
}

abbrev pub new_client : ℕ → HttpConnection
new_client c = record {
  request = [];
  parser = initial;
  http_request = fresh_request;
  response = [];
  abort = false;
}

abbrev before : List Event
before = accepted false ∷ ticked false ∷ accepted false ∷ closed 0 ∷ []

abbrev after : List Event
after = accepted false ∷ ticked true ∷ []

run-stopped_example :
    let b = run (serving no_failure new_client) (before ++ stop_asked ∷ after) in
    (b.started ≡ (run (serving no_failure new_client) before).started)
    × (b.manager.connections ≡ [])
    × ((c : ℕ) → member c b.started ≡ true → (b.manager.states c).abort ≡ true)
run-stopped_example = run-stopped no_failure new_client before after
