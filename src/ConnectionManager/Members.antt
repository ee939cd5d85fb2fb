-- ===== src/ConnectionManager/Members.antt =====
-- Which connections are in the set, and which are stopped.
use avrouter.Prelude.{
  ℕ, ◌≡◌, refl, ◌∙◌, Bool, true, false, not, ◌||◌, ◌&&◌, List, [], ◌∷◌, ◌==◌, arith,
}
use avrouter.Connection.{Connection, new_connection, start, stop}
use avrouter.Forward.{set_infos}
use avrouter.ConnectionManager.{
  member, remove, Manager, start_connection, stop_connection, stop_each, stop_all,
}

pub data Call : Type 0 where
  start_one stop_one : ℕ → Call
  stop_every : Call

pub member-remove : (c d : ℕ) (cs : List ℕ) → member d (remove c cs) ≡ (not (c == d) && member d cs)
member-remove c d [] = ground arith
member-remove c d (e ∷ cs) = ground (arith, member-remove c d cs)

module _ (M : Type 0) where
  unfoldable pub step : Call → Manager → Manager
  step (start_one c) m = (start_connection {M = M} c m).0
  step (stop_one c) m = (stop_connection {M = M} c m).0
  step stop_every m = (stop_all {M = M} m).0

  -- The calls so far, the latest first.
  unfoldable pub run : List Call → Manager
  run [] = record { connections = []; states = λ c. new_connection }
  run (call ∷ before) = step call (run before)

  -- The latest call that concerns the connection was its start.
  abbrev pub is_running : ℕ → List Call → Bool
  is_running c [] = false
  is_running c (start_one d ∷ before) = d == c || is_running c before
  is_running c (stop_one d ∷ before) = not (d == c) && is_running c before
  is_running c (stop_every ∷ before) = false

  abbrev pub is_named : ℕ → List Call → Bool
  is_named c [] = false
  is_named c (start_one d ∷ before) = d == c || is_named c before
  is_named c (stop_one d ∷ before) = d == c || is_named c before
  is_named c (stop_every ∷ before) = is_named c before

  is_named-is_running :
      (c : ℕ) (calls : List Call) → is_running c calls ≡ true → is_named c calls ≡ true
  is_named-is_running c [] h = h
  is_named-is_running c (start_one d ∷ before) h = ground (arith, h, is_named-is_running c before)
  is_named-is_running c (stop_one d ∷ before) h = ground (arith, h, is_named-is_running c before)
  is_named-is_running c (stop_every ∷ before) h = cc

  abort-stop_each :
      (cs : List ℕ) (states : ℕ → Connection) (c : ℕ)
      → ((stop_each {M = M} cs states).0 c).abort ≡ (member c cs || (states c).abort)
  unfolding stop_each stop
  abort-stop_each [] states c = refl
  abort-stop_each (d ∷ cs) states c =
      let stopped : Connection = record (states d) { abort = true } in
      ground (arith, abort-stop_each cs (set_infos d stopped states) c)

  -- The set holds the connections that run; the others that were ever started or stopped are
  -- aborted.
  pub record IsExact (calls : List Call) (m : Manager) : Type 0 where
    pub members : (c : ℕ) → member c m.connections ≡ is_running c calls
    pub aborted : (c : ℕ) → (m.states c).abort ≡ (is_named c calls && not (is_running c calls))

  start-IsExact :
      (c : ℕ) (before : List Call) (m : Manager)
      → IsExact before m
      → IsExact (start_one c ∷ before) (step (start_one c) m)
  unfolding step start_connection start
  start-IsExact c before m v = record {
    members = λ d. ground (arith, v.members c, v.members d);
    aborted = λ d. ground (arith, v.aborted d);
  }

  stop-IsExact :
      (c : ℕ) (before : List Call) (m : Manager)
      → IsExact before m
      → IsExact (stop_one c ∷ before) (step (stop_one c) m)
  unfolding step stop_connection stop
  stop-IsExact c before m v = record {
    members = λ d. ground (arith, v.members c, v.members d, member-remove c d m.connections);
    aborted = λ d. ground (arith, v.aborted d);
  }

  stop_all-IsExact :
      (before : List Call) (m : Manager)
      → IsExact before m
      → IsExact (stop_every ∷ before) (step stop_every m)
  unfolding step stop_all
  stop_all-IsExact before m v = record {
    members = λ d. refl;
    aborted = λ d.
        abort-stop_each m.connections m.states d
        ∙ ground (arith, v.members d, v.aborted d, is_named-is_running d before);
  }

  -- After any calls of `start`, `stop` and `stop_all` the set holds just the connections that were
  -- started and not stopped since, and of those that were ever named in a call exactly the others
  -- are aborted.
  pub run-IsExact : (calls : List Call) → IsExact calls (run calls)
  unfolding run
  run-IsExact [] = record { members = λ c. refl; aborted = λ c. refl }
  run-IsExact (start_one c ∷ before) = start-IsExact c before (run before) (run-IsExact before)
  run-IsExact (stop_one c ∷ before) = stop-IsExact c before (run before) (run-IsExact before)
  run-IsExact (stop_every ∷ before) = stop_all-IsExact before (run before) (run-IsExact before)
