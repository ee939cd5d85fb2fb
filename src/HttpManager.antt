-- ===== src/HttpManager.antt =====
-- include/http_connection.hpp: `http_connection_manager`, the set of the clients of the HTTP
-- server. Its lock makes each call one step, and is not modelled; `tick` has nothing in it but a
-- lock of its own.
use avrouter.Prelude.{ℕ, List, [], ◌∷◌, ◌++◌, if◌then◌else◌}
use avrouter.Forward.{set_infos}
use avrouter.ConnectionManager.{member, remove}
use avrouter.HttpConnection.{HttpConnection, HttpEffect, start, stop}

-- The set, and all connections by number.
pub record HttpManager : Type 0 where
  pub connections : List ℕ
  pub states : ℕ → HttpConnection

abbrev by : ℕ → List HttpEffect → List (ℕ × HttpEffect)
by c [] = []
by c (e ∷ es) = (c, e) ∷ by c es

unfoldable pub start_one : ℕ → HttpManager → HttpManager × List (ℕ × HttpEffect)
start_one c m =
    let (state, effects) = start (m.states c) in
    (
      record {
        connections = if member c m.connections then m.connections else c ∷ m.connections;
        states = set_infos c state m.states;
      },
      by c effects,
    )

unfoldable pub stop_one : ℕ → HttpManager → HttpManager × List (ℕ × HttpEffect)
stop_one c m =
    let (state, effects) = stop (m.states c) in
    (
      record {
        connections = if member c m.connections then remove c m.connections else m.connections;
        states = set_infos c state m.states;
      },
      by c effects,
    )

-- `for_each` over the set.
unfoldable pub stop_each :
    List ℕ → (ℕ → HttpConnection) → (ℕ → HttpConnection) × List (ℕ × HttpEffect)
stop_each [] states = (states, [])
stop_each (c ∷ cs) states =
    let (state, effects) = stop (states c) in
    let (states', more) = stop_each cs (set_infos c state states) in (states', by c effects ++ more)

unfoldable pub stop_all : HttpManager → HttpManager × List (ℕ × HttpEffect)
stop_all m =
    let (states', effects) = stop_each m.connections m.states in
    (record { connections = []; states = states' }, effects)

unfoldable pub tick : HttpManager → HttpManager
tick m = m
