-- ===== src/Tests/Startup.antt =====
-- A start of the server whose second session does not open.
use avrouter.Prelude.{◌≡◌, refl, true, false, [], ◌∷◌, some, Bytes, codes, ltb, arith}
use avrouter.IoServicePool.{new_pool, get_io_service, start_thread, join_thread}
use avrouter.IoServicePool as Pool
use avrouter.Router.{accept, wait}
use avrouter.Tests.HttpServer.{no_failure}
use avrouter.Main.Startup.{
  Options, Outside, open_session, log_pool_failed, make_router, make_http, make_database,
  make_login, register_moudles, start_router, register_uris, start_http, wait_signals, run_pool,
  connection_string, main,
}
use avrouter.Main.Startup.Outcome.{main-served}

abbrev some_options : Options
some_options = record {
  help = false;
  num_threads = 2;
  pool_size = 32;
  db_server = codes "127.0.0.1";
  db_port = codes "4321";
  db_user = codes "postgres";
  db_password = codes "avrouter";
  db_name = codes "avim";
  db_timeout = codes "3";
  db_application_name = codes "3";
}

string_of_options :
    connection_string some_options
    ≡ codes
        "hostaddr = '127.0.0.1' port = '4321' user = 'postgres' password = 'avrouter' dbname = 'avim' connect_timeout = '3' application_name = '3'"
unfolding connection_string
string_of_options = refl

abbrev half_down : Outside
half_down = record {
  pool_made = true;
  opens = λ i. ltb i 1;
  router = no_failure;
  http = no_failure;
}

abbrev text : Bytes
text = connection_string some_options

main-served_example : main half_down (some some_options) ≡ (
  open_session 0 text
      ∷ open_session 1 text
      ∷ log_pool_failed
      ∷ make_router 0
      ∷ make_http 1 (wait ∷ [])
      ∷ make_database 0
      ∷ make_login 1 (wait ∷ [])
      ∷ register_moudles
      ∷ start_router 0 (accept 0 ∷ wait ∷ [])
      ∷ register_uris
      ∷ start_http (some 1) (accept 0 ∷ [])
      ∷ wait_signals 0
      ∷ run_pool (start_thread 0 ∷ start_thread 1 ∷ join_thread 0 ∷ join_thread 1 ∷ [])
      ∷ [],
  0,
)
unfolding Pool.run
main-served_example =
    main-served half_down some_options (some 1) 1 refl refl refl
      (omega arith, (λ j less. ground (arith, less)), refl)
