-- ===== src/HttpServer/Shutdown.antt =====
-- The HTTP server with its connections and its timer, with asio that completes each `async_accept`
-- and each wait once; and its end by `stop`.
use avrouter.Prelude.{
  ℕ, ◌≡◌, refl, ap, ◌∙◌, sym, Bool, true, false, not, List, [], ◌∷◌, ◌++◌, arith, ◌&&◌, ◌||◌,
  Bool-cases, inl, inr, if◌then◌else◌, ==_iff,
}
use avrouter.Forward.{set_infos}
use avrouter.ConnectionManager.{member}
use avrouter.ConnectionManager.Members.{member-remove}
use avrouter.HttpConnection.{HttpConnection}
use avrouter.HttpConnection as Client
use avrouter.HttpManager.{HttpManager, start_one, stop_one, stop_each, stop_all}
use avrouter.HttpManager as Clients
use avrouter.Router.{
  Failures, ServerEffect, accept, start_connection, wait, cancel_timer, close_acceptor,
  stop_all_connections,
}
use avrouter.HttpServer.{HttpServer, construct, start, stop, handle_accept, on_tick}

-- The server, its connections, and the accept and the timer that asio works on; `started` are the
-- connections that were started, the latest first.
pub record Serving : Type 0 where
  pub server : HttpServer
  pub manager : HttpManager
  pub pending : Bool
  pub waiting : Bool
  pub started : List ℕ

unfoldable pub perform : Serving → List ServerEffect → Serving
perform a [] = a
perform a (accept n ∷ es) = perform (record a { pending = true }) es
perform a (start_connection n ∷ es) =
    perform (record a { manager = (start_one n a.manager).0; started = n ∷ a.started }) es
perform a (wait ∷ es) = perform (record a { waiting = true }) es
perform a (stop_all_connections ∷ es) = perform (record a { manager = (stop_all a.manager).0 }) es
perform a (cancel_timer ∷ es) = perform a es
perform a (close_acceptor ∷ es) = perform a es

abbrev settled : Serving → HttpServer × List ServerEffect → Serving
settled a (s, es) = perform (record a { server = s }) es

-- What asio completes, `m_connection_manager->stop` by a connection, and `stop`.
pub data Event : Type 0 where
  accepted : Bool → Event
  ticked : Bool → Event
  closed : ℕ → Event
  stop_asked : Event

abbrev pub turn : Serving → Event → Serving
turn a (accepted error) =
    let b = record a { pending = false } in
    if a.pending then settled b (handle_accept error a.server) else a
turn a (ticked error) =
    let b = record a { waiting = false; manager = Clients.tick a.manager } in
    if a.waiting then settled b (on_tick error a.server) else a
turn a (closed c) = record a { manager = (stop_one c a.manager).0 }
turn a stop_asked = settled a (stop a.server)

-- A server that is constructed and started; `states` are the connections as they are made.
unfoldable pub serving : Failures → (ℕ → HttpConnection) → Serving
serving f states =
    let (s, effects) = construct f in
    let a =
      perform
        (record {
          server = s;
          manager = record { connections = []; states = states };
          pending = false;
          waiting = false;
          started = [];
        })
        effects in
    settled a (start a.server)

unfoldable pub run : Serving → List Event → Serving
run a [] = a
run a (e ∷ es) = run (turn a e) es

run-append : (a : Serving) (es fs : List Event) → run a (es ++ fs) ≡ run (run a es) fs
unfolding run
run-append a [] fs = refl
run-append a (e ∷ es) fs = run-append (turn a e) es fs

-- Every connection that was started is in the set or aborted.
abbrev IsKept : Serving → Type 0
IsKept a =
    (c : ℕ)
    → member c a.started ≡ true
    → (member c a.manager.connections || (a.manager.states c).abort) ≡ true

abort-stop_each :
    (cs : List ℕ) (states : ℕ → HttpConnection) (c : ℕ)
    → ((stop_each cs states).0 c).abort ≡ (member c cs || (states c).abort)
unfolding stop_each Client.stop
abort-stop_each [] states c = refl
abort-stop_each (d ∷ cs) states c =
    let stopped : HttpConnection = record (states d) { abort = true } in
    ground (arith, abort-stop_each cs (set_infos d stopped states) c)

turn-IsKept : (a : Serving) (e : Event) → IsKept a → IsKept (turn a e)
unfolding perform handle_accept on_tick stop start_one stop_one stop_all Client.start Client.stop
    Clients.tick
turn-IsKept a (accepted error) h = λ d k. ground (arith, h d, k, ==_iff a.server.connection d)
turn-IsKept a (ticked error) h = λ d k. ground (arith, h d, k)
turn-IsKept a (closed c) h = λ d k. ground (arith, h d, k, member-remove c d a.manager.connections)
turn-IsKept a stop_asked h = λ d k. abort-stop_each a.manager.connections a.manager.states d ∙ h d k

run-IsKept : (es : List Event) (a : Serving) → IsKept a → IsKept (run a es)
unfolding run
run-IsKept [] a h = h
run-IsKept (e ∷ es) a h = run-IsKept es (turn a e) (turn-IsKept a e h)

serving-IsKept : (f : Failures) (states : ℕ → HttpConnection) → IsKept (serving f states)
unfolding serving construct start perform
serving-IsKept f states c h = ground (arith, h)

-- The acceptor is closed, and the set of connections is empty.
abbrev IsDown : Serving → Type 0
IsDown a = (a.server.is_open ≡ false) × (a.manager.connections ≡ [])

turn-IsDown :
    (a : Serving) (e : Event) → IsDown a → IsDown (turn a e) × ((turn a e).started ≡ a.started)
unfolding perform handle_accept on_tick stop stop_one stop_all Clients.tick
turn-IsDown a (accepted error) (o, n) = ground (arith, o, n)
turn-IsDown a (ticked error) (o, n) = ground (arith, o, n)
turn-IsDown a (closed c) (o, n) = ((o, rw n), refl)
turn-IsDown a stop_asked (o, n) = ((refl, refl), refl)

run-IsDown :
    (es : List Event) (a : Serving)
    → IsDown a
    → IsDown (run a es) × ((run a es).started ≡ a.started)
unfolding run
run-IsDown [] a h = (h, refl)
run-IsDown (e ∷ es) a h =
    let (h1, s1) = turn-IsDown a e h in let (h2, s2) = run-IsDown es (turn a e) h1 in (h2, s2 ∙ s1)

stop-IsDown : (a : Serving) → IsDown (turn a stop_asked) × ((turn a stop_asked).started ≡ a.started)
unfolding perform stop stop_all
stop-IsDown a = ((refl, refl), refl)

all_aborted :
    (a : Serving)
    → IsKept a
    → IsDown a
    → (c : ℕ) → member c a.started ≡ true
    → (a.manager.states c).abort ≡ true
all_aborted a h (o, n) c k = sym (ap (λ cs. member c cs || (a.manager.states c).abort) n) ∙ h c k

-- Whatever happened before a call of `stop` and whatever happens after it, no connection is started
-- after it, the set of connections is empty, and every connection that was ever started is aborted.
pub run-stopped :
    (f : Failures) (states : ℕ → HttpConnection) (before after : List Event)
    → let b = run (serving f states) (before ++ stop_asked ∷ after) in
      (b.started ≡ (run (serving f states) before).started)
      × (b.manager.connections ≡ [])
      × ((c : ℕ) → member c b.started ≡ true → (b.manager.states c).abort ≡ true)
unfolding run
run-stopped f states before after =
    let a = serving f states in
    let mid = run a before in
    let (down, same) = stop-IsDown mid in
    let (down', same') = run-IsDown after (turn mid stop_asked) down in
    let kept =
      run-IsKept (stop_asked ∷ after) mid (run-IsKept before a (serving-IsKept f states)) in
    rw (run-append a before (stop_asked ∷ after))
      (same' ∙ same, down'.1, all_aborted (run mid (stop_asked ∷ after)) kept down')

-- A wait has ended with an error.
abbrev pub is_cancelled : List Event → Bool
is_cancelled [] = false
is_cancelled (ticked true ∷ es) = true
is_cancelled (_ ∷ es) = is_cancelled es

run_quiet : (es : List Event) (a : Serving) → a.waiting ≡ false → (run a es).waiting ≡ false
unfolding run perform handle_accept on_tick stop
run_quiet [] a h = h
run_quiet (accepted error ∷ es) a h = run_quiet es (turn a (accepted error)) (ground (arith, h))
run_quiet (ticked error ∷ es) a h = run_quiet es (turn a (ticked error)) (ground (arith, h))
run_quiet (closed c ∷ es) a h = run_quiet es (turn a (closed c)) h
run_quiet (stop_asked ∷ es) a h = run_quiet es (turn a stop_asked) h

run_waiting :
    (es : List Event) (a : Serving) → a.waiting ≡ true → (run a es).waiting ≡ not (is_cancelled es)
unfolding run perform handle_accept on_tick stop
run_waiting [] a h = h
run_waiting (accepted error ∷ es) a h = run_waiting es (turn a (accepted error)) (ground (arith, h))
run_waiting (ticked true ∷ es) a h = run_quiet es (turn a (ticked true)) (ground (arith, h))
run_waiting (ticked false ∷ es) a h = run_waiting es (turn a (ticked false)) (ground (arith, h))
run_waiting (closed c ∷ es) a h = run_waiting es (turn a (closed c)) h
run_waiting (stop_asked ∷ es) a h = run_waiting es (turn a stop_asked) h

serving-waiting :
    (f : Failures) (states : ℕ → HttpConnection)
    → (serving f states).waiting ≡ (construct f).0.listening
unfolding serving construct start perform
serving-waiting f states = ground arith

-- The timer runs just when all five calls of the constructor have succeeded and no wait has ended
-- with an error so far: the cancelling of a wait, by `stop`, ends the timer for good, and nothing
-- else does.
pub run-is_cancelled :
    (f : Failures) (states : ℕ → HttpConnection) (es : List Event)
    → (run (serving f states) es).waiting ≡ (
        not f.resolve
        && not f.open_protocol
        && not f.set_option
        && not f.bind
        && not f.listen
        && not (is_cancelled es))
unfolding construct
run-is_cancelled f states es = elim (Bool-cases (serving f states).waiting) [
  | inl h ↦ run_waiting es (serving f states) h ∙ ground (arith, h, serving-waiting f states)
  | inr h ↦ run_quiet es (serving f states) h ∙ ground (arith, h, serving-waiting f states)
]
