-- ===== src/Main/Startup.antt =====
-- src/main.cpp: what `main` does with its options, up to the end of the event loop. The parser of
-- the options, soci and the sockets are parameters; memory and threads suffice.
pub mod Outcome
use avrouter.Prelude.{
  ℕ, zero, suc, Bool, true, false, not, List, [], ◌∷◌, ◌++◌, Option, none, some, Bytes, codes,
  if◌then◌else◌, Run, ok, fault, ◌>>=◌, to_size_t, u32_mod, ◌-◌,
}
use avrouter.IoServicePool.{IoServicePool, PoolEffect, new_pool, get_io_service}
use avrouter.IoServicePool as Pool
use avrouter.Router.{Failures, Server, ServerEffect, continue_timer}
use avrouter.Router as Router
use avrouter.HttpServer.{HttpServer}
use avrouter.HttpServer as HttpServer

-- The options that `main` reads, with their defaults in place. The two numbers are of type `int`.
pub record Options : Type 0 where
  pub help : Bool
  pub num_threads : ℕ
  pub pool_size : ℕ
  pub db_server : Bytes
  pub db_port : Bytes
  pub db_user : Bytes
  pub db_password : Bytes
  pub db_name : Bytes
  pub db_timeout : Bytes
  pub db_application_name : Bytes

unfoldable pub connection_string : Options → Bytes
connection_string o =
    codes "hostaddr = '"
    ++ (o.db_server
        ++ (codes "' "
            ++ (codes "port = '"
                ++ (o.db_port
                    ++ (codes "' "
                        ++ (codes "user = '"
                            ++ (o.db_user
                                ++ (codes "' "
                                    ++ (codes "password = '"
                                        ++ (o.db_password
                                            ++ (codes "' "
                                                ++ (codes "dbname = '"
                                                    ++ (o.db_name
                                                        ++ (codes "' "
                                                            ++ (codes "connect_timeout = '"
                                                            ++ (o.db_timeout
                                                            ++ (codes "' "
                                                            ++ (codes "application_name = '"
                                                            ++ (o.db_application_name
                                                            ++ codes "'")))))))))))))))))))

-- What comes from outside.
pub record Outside : Type 0 where
  -- whether `connection_pool` can be made
  pub pool_made : Bool
  -- whether the session of this number opens; it throws `soci_error` if not
  pub opens : ℕ → Bool
  pub router : Failures
  pub http : Failures

-- What `main` does. A part that is made on a service, or waits on one, comes with its number.
pub data MainEffect : Type 0 where
  print_help : MainEffect
  open_session : ℕ → Bytes → MainEffect
  log_pool_failed : MainEffect
  make_router : ℕ → MainEffect
  make_http : ℕ → List ServerEffect → MainEffect
  make_database : ℕ → MainEffect
  make_login : ℕ → List ServerEffect → MainEffect
  -- the entries of the tables of messages and notices
  register_moudles : MainEffect
  start_router : ℕ → List ServerEffect → MainEffect
  register_uris : MainEffect
  -- with the service of the new connection, if one is made
  start_http : Option ℕ → List ServerEffect → MainEffect
  wait_signals : ℕ → MainEffect
  run_pool : List PoolEffect → MainEffect
  log_exception : MainEffect

-- The loop over the sessions: the first failure ends it.
unfoldable pub open_sessions : ℕ → ℕ → Bytes → (ℕ → Bool) → List MainEffect
open_sessions zero i text opens = []
open_sessions (suc left) i text opens =
    let later = open_sessions left (suc i) text opens in
    open_session i text ∷ (if opens i then later else log_pool_failed ∷ [])

-- The service of the connection of `http_server::start`, which makes none if it does not listen.
unfoldable pub http_service : Bool → IoServicePool → Run (Option ℕ × IoServicePool)
http_service false pool = ok (none, pool)
http_service true pool = do service ← get_io_service pool; ok (some service.0, service.1)

-- From the servers to the end of the event loop.
unfoldable pub run_servers : Outside → IoServicePool → Run (List MainEffect)
run_servers o pool =
    let router = Router.start (Router.construct o.router) in
    let http = HttpServer.construct o.http in
    let started = HttpServer.start http.0 in
    do
      for_router ← get_io_service pool
      for_http ← get_io_service for_router.1
      for_database ← get_io_service for_http.1
      for_login ← get_io_service for_database.1
      for_connection ← get_io_service for_login.1
      for_http_connection ← http_service http.0.listening for_connection.1
      for_signals ← get_io_service for_http_connection.1
      ok (
          make_router for_router.0
          ∷ make_http for_http.0 http.1
          ∷ make_database for_database.0
          ∷ make_login for_login.0 continue_timer
          ∷ register_moudles
          ∷ start_router for_connection.0 router.1
          ∷ register_uris
          ∷ start_http for_http_connection.0 started.1
          ∷ wait_signals for_signals.0
          ∷ run_pool (Pool.run for_signals.1)
          ∷ [])

-- The handler of the exceptions, and the value that is returned, an `int`.
unfoldable pub returned : Run (List MainEffect) → List MainEffect × ℕ
returned (fault why) = (log_exception ∷ [], u32_mod - 1)
returned (ok effects) = (effects, 0)

-- `none` are options that the parser throws at.
unfoldable pub main : Outside → Option Options → List MainEffect × ℕ
main o none = (log_exception ∷ [], u32_mod - 1)
main o (some opts) =
    let sessions = open_sessions (to_size_t opts.pool_size) 0 (connection_string opts) o.opens in
    let (effects, code) = returned (new_pool (to_size_t opts.num_threads) >>= run_servers o) in
    if opts.help
    then (print_help ∷ [], 0)
    else if not o.pool_made
    then (log_exception ∷ [], u32_mod - 1)
    else (sessions ++ effects, code)
