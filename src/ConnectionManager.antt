-- ===== src/ConnectionManager.antt =====
-- include/connection.hpp: `connection_manager`, the set of the connections that run. Its lock makes
-- each call one step, and is not modelled.
pub mod Members
pub mod Sets
use avrouter.Prelude.{
  ℕ, Bool, true, false, not, ◌||◌, ◌&&◌, List, [], ◌∷◌, ◌++◌, if◌then◌else◌, ◌==◌, map,
}
use avrouter.Connection.{Connection, Effect, start, stop}
use avrouter.Forward.{set_infos}

abbrev pub member : ℕ → List ℕ → Bool
member c [] = false
member c (d ∷ ds) = d == c || member c ds

abbrev pub remove : ℕ → List ℕ → List ℕ
remove c [] = []
remove c (d ∷ ds) = if d == c then remove c ds else d ∷ remove c ds

-- The set, and all connections by number. The order of the set is that of the pointers; here the
-- latest is the first.
pub record Manager : Type 0 where
  pub connections : List ℕ
  pub states : ℕ → Connection

module _ {M : Type 0} where
  tagged : ℕ → List (Effect M) → List (ℕ × Effect M)
  tagged c [] = []
  tagged c (e ∷ es) = (c, e) ∷ tagged c es

  unfoldable pub start_connection : ℕ → Manager → Manager × List (ℕ × Effect M)
  unfolding tagged
  start_connection c m =
      let (state, effects) = start (m.states c) in
      (
        record {
          connections = if member c m.connections then m.connections else c ∷ m.connections;
          states = set_infos c state m.states;
        },
        tagged c effects,
      )

  unfoldable pub stop_connection : ℕ → Manager → Manager × List (ℕ × Effect M)
  unfolding tagged
  stop_connection c m =
      let (state, effects) = stop (m.states c) in
      (
        record {
          connections = if member c m.connections then remove c m.connections else m.connections;
          states = set_infos c state m.states;
        },
        tagged c effects,
      )

  -- `for_each` over the set.
  unfoldable pub stop_each : List ℕ → (ℕ → Connection) → (ℕ → Connection) × List (ℕ × Effect M)
  unfolding tagged
  stop_each [] states = (states, [])
  stop_each (c ∷ cs) states =
      let (state, effects) = stop (states c) in
      let (states', more) = stop_each cs (set_infos c state states) in
      (states', tagged c effects ++ more)

  unfoldable pub stop_all : Manager → Manager × List (ℕ × Effect M)
  stop_all m =
      let (states', effects) = stop_each m.connections m.states in
      (record { connections = []; states = states' }, effects)
