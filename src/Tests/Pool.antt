-- ===== src/Tests/Pool.antt =====
-- The services and the set of connections.
use avrouter.Prelude.{ℕ, ◌≡◌, List, [], ◌∷◌}
use avrouter.ConnectionManager.Sets.{view, set_run, run-view}
use avrouter.ConnectionManager.Members.{
  Call, start_one, stop_one, stop_every, run, IsExact, run-IsExact,
}

abbrev some_calls : List Call
some_calls = start_one 3 ∷ stop_every ∷ stop_one 1 ∷ start_one 2 ∷ start_one 1 ∷ []

run-IsExact_example : IsExact (Unit {0}) some_calls (run (Unit {0}) some_calls)
run-IsExact_example = run-IsExact (Unit {0}) some_calls

run-view_example :
    (view (run (Unit {0}) some_calls) ≡ set_run some_calls)
    × ((c d : ℕ)
        → (view (run (Unit {0}) (start_one c ∷ start_one d ∷ some_calls))).set
          ≡ (view (run (Unit {0}) (start_one d ∷ start_one c ∷ some_calls))).set)
    × ((c : ℕ)
        → (view (run (Unit {0}) (start_one c ∷ start_one c ∷ some_calls))).set
          ≡ (view (run (Unit {0}) (start_one c ∷ some_calls))).set)
run-view_example = run-view (Unit {0}) some_calls
