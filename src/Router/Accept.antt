-- ===== src/Router/Accept.antt =====
-- The accepting of connections, by `start`, `handle_accept` and `stop`, with asio that completes
-- each `async_accept` once.
use mathlib.Core.Path.{subst}
use avrouter.Prelude.{
  sym, ℕ, zero, suc, ◌+◌, ◌≡◌, refl, ap, ◌∙◌, Bool, true, false, List, [], ◌∷◌, ◌++◌, arith, ◌&&◌,
  not, Bool-cases, inl, inr, if◌then◌else◌,
}
use avrouter.Router.{
  Server, Failures, construct, ServerEffect, accept, start_connection, wait, start, stop,
  handle_accept, on_tick,
}

-- The server with the accept and the timer that asio works on, and the connections that it has
-- started, the oldest first.
pub record Accepting : Type 0 where
  pub server : Server
  pub pending : Bool
  pub waiting : Bool
  pub started : List ℕ

abbrev perform : Accepting → List ServerEffect → Accepting
perform a [] = a
perform a (accept n ∷ es) = perform (record a { pending = true }) es
perform a (start_connection n ∷ es) = perform (record a { started = a.started ++ n ∷ [] }) es
perform a (wait ∷ es) = perform (record a { waiting = true }) es
perform a (_ ∷ es) = perform a es

abbrev settled : Accepting → Server × List ServerEffect → Accepting
settled a (s, es) = perform (record a { server = s }) es

-- `m_acceptor.close` and `m_timer.cancel` complete what is pending with an error, later.
pub data Event : Type 0 where
  accepted : Bool → Event
  tick : Bool → Event
  stop_asked : Event

turn_accepted : Bool → Bool → Accepting → Accepting
turn_accepted false error a = a
turn_accepted true error a = settled (record a { pending = false }) (handle_accept error a.server)

turn_tick : Bool → Bool → Accepting → Accepting
turn_tick false error a = a
turn_tick true error a = settled (record a { waiting = false }) (on_tick error a.server)

unfoldable pub turn : Accepting → Event → Accepting
unfolding turn_accepted turn_tick
turn a (accepted error) = turn_accepted a.pending error a
turn a (tick error) = turn_tick a.waiting error a
turn a stop_asked = settled a (stop a.server)

unfoldable pub run : Accepting → List Event → Accepting
run a [] = a
run a (e ∷ es) = run (turn a e) es

-- After the constructor and `start`, which does not look whether the constructor has come to its
-- end.
unfoldable pub started_server : Failures → Accepting
unfolding construct start
started_server f =
    settled (record { server = construct f; pending = false; waiting = false; started = [] })
      (start (construct f))

abbrev pub upto : ℕ → List ℕ
upto zero = []
upto (suc n) = upto n ++ n ∷ []

-- How many accepts succeed before the first error or `stop`.
unfoldable pub successes : List Event → ℕ
successes [] = 0
successes (accepted false ∷ es) = suc (successes es)
successes (accepted true ∷ es) = 0
successes (stop_asked ∷ es) = 0
successes (tick _ ∷ es) = successes es

-- Nothing is being accepted, or the acceptor is closed.
abbrev IsOver : Accepting → Type 0
IsOver a = (a.pending && a.server.is_open) ≡ false

turn-IsOver :
    (a : Accepting) (p o w : Bool) (e : Event)
    → (p && o) ≡ false
    → let b : Accepting = record a {
      server = record a.server { is_open = o };
      pending = p;
      waiting = w;
    } in
      ((turn b e).started ≡ a.started) × IsOver (turn b e)
unfolding turn handle_accept on_tick stop
turn-IsOver a false o w (accepted error) h = (refl, refl)
turn-IsOver a true true w (accepted error) h = cc
turn-IsOver a true false w (accepted error) h = (refl, refl)
turn-IsOver a p o true (tick error) h = (refl, h)
turn-IsOver a p o false (tick error) h = (refl, h)
turn-IsOver a true o w stop_asked h = (refl, refl)
turn-IsOver a false o w stop_asked h = (refl, refl)

run-IsOver : (a : Accepting) (es : List Event) → IsOver a → (run a es).started ≡ a.started
unfolding run
run-IsOver a [] h = refl
run-IsOver a (e ∷ es) h =
    let (same, h1) = turn-IsOver a a.pending a.server.is_open a.waiting e h in
    run-IsOver (turn a e) es h1 ∙ same

-- The server that has started `n` connections and accepts the next one.
abbrev live : ℕ → Bool → Accepting
live n w = record {
  server = record { is_open = true; made = suc n; connection = n };
  pending = true;
  waiting = w;
  started = upto n;
}

more : (n k : ℕ) → upto (suc n + k) ≡ upto (n + suc k)
more n k = let e : suc n + k ≡ n + suc k = omega arith in ap upto e

none_more : (n : ℕ) → upto n ≡ upto (n + 0)
none_more n = let e : n ≡ n + 0 = omega arith in ap upto e

run-live :
    (n : ℕ) (w : Bool) (es : List Event) → (run (live n w) es).started ≡ upto (n + successes es)
unfolding run successes turn handle_accept on_tick stop
run-live n w [] = none_more n
run-live n w (accepted false ∷ es) = run-live (suc n) w es ∙ more n (successes es)
run-live n w (accepted true ∷ es) = run-IsOver _ es refl ∙ none_more n
run-live n true (tick error ∷ es) = run-live n true es
run-live n false (tick error ∷ es) = run-live n false es
run-live n w (stop_asked ∷ es) = run-IsOver _ es refl ∙ none_more n

-- Whatever the events, the connections that are started are new ones, numbered in turn, each once,
-- and as many as accepts succeed before the first accept that fails or the first `stop`: one failed
-- accept ends the accepting for good. If the constructor could not open the acceptor, none is
-- started.
pub run-started :
    (f : Failures) (es : List Event)
    → (run (started_server f) es).started
      ≡ (if not f.resolve && not f.open_protocol then upto (successes es) else [])
unfolding started_server construct start
run-started f es = elim (Bool-cases (not f.resolve && not f.open_protocol)) [
  | inl o ↦
      rw o (let e : 0 + successes es ≡ successes es = omega arith in run-live 0 true es ∙ ap upto e)
  | inr o ↦ rw o (run-IsOver _ es refl)
]

turn_waiting :
    (a : Accepting) (p o : Bool) (e : Event)
    → (turn
        (record a { server = record a.server { is_open = o }; pending = p; waiting = true })
        e).waiting
      ≡ true
unfolding turn handle_accept on_tick stop
turn_waiting a false o (accepted error) = refl
turn_waiting a true true (accepted true) = refl
turn_waiting a true true (accepted false) = refl
turn_waiting a true false (accepted error) = refl
turn_waiting a p o (tick error) = refl
turn_waiting a p o stop_asked = refl

-- The timer always runs again: not even the cancelling of it by `stop` ends it.
pub run-waiting : (es : List Event) (a : Accepting) → a.waiting ≡ true → (run a es).waiting ≡ true
unfolding run
run-waiting [] a h = h
run-waiting (e ∷ es) a h = run-waiting es (turn a e) (
    subst (λ w. (turn (record a { waiting = w }) e).waiting ≡ true) (sym h)
      (turn_waiting a a.pending a.server.is_open e))
