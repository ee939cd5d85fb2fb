-- ===== src/Tests/Router.antt =====
-- The tables of callbacks and the accepting.
use avrouter.Prelude.{ℕ, ◌≡◌, refl, true, false, List, [], ◌∷◌, Option, none, Bytes, codes}
use avrouter.Prelude.Dict.{find}
use avrouter.Tests.HttpServer.{no_failure}
use avrouter.Router.Registry.{Call, add, del, calls, promised_all, Stands, calls-Stands}
use avrouter.Router.Accept.{
  Event, accepted, tick, stop_asked, started_server, successes, run, run-started,
}

abbrev some_calls : List (Call ℕ)
some_calls = add (codes "a") 1 ∷ add (codes "a") 2 ∷ del (codes "b") ∷ del (codes "a") ∷ []

abbrev none_known : Bytes → Option ℕ
none_known name = none

empty_Stands : Stands [] none_known
unfolding find
empty_Stands k = refl

calls-Stands_example :
    ((calls some_calls []).0 ≡ (promised_all some_calls none_known).0)
    × Stands ((calls some_calls []).1) ((promised_all some_calls none_known).1)
calls-Stands_example = calls-Stands some_calls [] none_known empty_Stands

abbrev an_hour : List Event
an_hour =
    accepted false ∷ tick false ∷ accepted false ∷ accepted true ∷ accepted false ∷ stop_asked ∷ []

run-started_example : (run (started_server no_failure) an_hour).started ≡ 0 ∷ 1 ∷ []
unfolding successes
run-started_example = run-started no_failure an_hour
