-- ===== src/Main/Startup/Outcome.antt =====
-- What `main` comes to, and which service each part runs on.
use mathlib.Core.Path.{subst}
use avrouter.Prelude.{
  ℕ, zero, suc, ◌+◌, ◌%◌, ◌<◌, ◌≡◌, refl, ap, ◌∙◌, Bool, true, false, not, Bool-cases, inl, inr,
  List, [], ◌∷◌, ◌++◌, if◌then◌else◌, ◌&&◌, Option, none, some, Bytes, ok, ◌>>=◌, arith, to_size_t,
  map,
}
use avrouter.IoServicePool.{IoServicePool, PoolEffect, new_pool, get_io_service}
use avrouter.IoServicePool as Pool
use avrouter.IoServicePool.Turns.{pool_at, from_to, get_io_service_lem, new_pool_lem}
use avrouter.Router.{Failures, ServerEffect, accept, wait}
use avrouter.Router as Router
use avrouter.HttpServer.{HttpServer}
use avrouter.HttpServer as HttpServer
use avrouter.Main.Startup.{
  Options, Outside, MainEffect, make_router, make_http, make_database, make_login, register_moudles,
  start_router, register_uris, start_http, wait_signals, run_pool, open_session, log_pool_failed,
  open_sessions, connection_string, http_service, run_servers, returned, main,
}

-- Whether the HTTP server listens.
abbrev pub listens : Failures → Bool
listens f = not f.resolve && not f.open_protocol && not f.set_option && not f.bind && not f.listen

-- What happens from the servers on, with `n` services: each call for a service gets the next one.
abbrev pub served : ℕ → Bool → List MainEffect
served n listening =
    make_router (0 % n)
    ∷ make_http (1 % n) (if listening then wait ∷ [] else [])
    ∷ make_database (2 % n)
    ∷ make_login (3 % n) (wait ∷ [])
    ∷ register_moudles
    ∷ start_router (4 % n) (accept 0 ∷ wait ∷ [])
    ∷ register_uris
    ∷ start_http (if listening then some (5 % n) else none)
        (if listening then accept 0 ∷ [] else [])
    ∷ wait_signals ((if listening then 6 else 5) % n)
    ∷ run_pool (Pool.run (pool_at n 0))
    ∷ []

http_service_lem :
    (n : ℕ) (listening : Bool)
    → 0 < n
    → http_service listening (pool_at n (5 % n))
      ≡ ok (if listening then some (5 % n) else none, pool_at n ((if listening then 6 else 5) % n))
unfolding http_service
http_service_lem n false h = refl
http_service_lem n true h = rw (get_io_service_lem n 5 h)

start_effects :
    (s : HttpServer) → (HttpServer.start s).1 ≡ (if s.listening then accept s.made ∷ [] else [])
unfolding HttpServer.start
start_effects s = elim (Bool-cases s.listening) [
  | inl e ↦ ground (arith, e)
  | inr e ↦ ground (arith, e)
]

run_servers_lem :
    (o : Outside) (n : ℕ)
    → 0 < n
    → run_servers o (pool_at n (0 % n)) ≡ ok (served n (listens o.http))
unfolding run_servers Router.start HttpServer.construct Pool.run Router.construct
run_servers_lem o n h = rw (
  get_io_service_lem n 0 h,
  get_io_service_lem n 1 h,
  get_io_service_lem n 2 h,
  get_io_service_lem n 3 h,
  get_io_service_lem n 4 h,
  http_service_lem n (listens o.http) h,
  get_io_service_lem n (if listens o.http then 6 else 5) h,
  start_effects (HttpServer.construct o.http).0,
)

-- The first of the sessions from `i` on that does not open, if there is one.
abbrev pub IsFirstFailure : ℕ → ℕ → (ℕ → Bool) → Option ℕ → Type 0
IsFirstFailure i left opens none = (j : ℕ) → j < left → opens (i + j) ≡ true
IsFirstFailure i left opens (some k) =
    (k < left) × ((j : ℕ) → j < k → opens (i + j) ≡ true) × (opens (i + k) ≡ false)

-- The sessions that are tried from `i` on, and the line in the log.
abbrev pub tried : ℕ → ℕ → Bytes → Option ℕ → List MainEffect
tried i left text none = map (λ j. open_session j text) (from_to i left)
tried i left text (some k) =
    map (λ j. open_session j text) (from_to i (suc k)) ++ log_pool_failed ∷ []

open_sessions-tried :
    (left i : ℕ) (text : Bytes) (opens : ℕ → Bool) (failure : Option ℕ)
    → IsFirstFailure i left opens failure
    → open_sessions left i text opens ≡ tried i left text failure
unfolding open_sessions
open_sessions-tried zero i text opens none h = refl
open_sessions-tried zero i text opens (some k) h = absurd (omega (arith, h.0))
open_sessions-tried (suc left) i text opens none h =
    let here : opens i ≡ true = subst (λ j. opens j ≡ true) (omega arith) (h 0 (omega arith)) in
    rw (
      here,
      open_sessions-tried left (suc i) text opens none
          (λ j less. subst (λ m. opens m ≡ true) (omega arith) (h (suc j) (omega arith))),
    )
open_sessions-tried (suc left) i text opens (some zero) h =
    let here : opens i ≡ false = subst (λ j. opens j ≡ false) (omega arith) h.2 in rw here
open_sessions-tried (suc left) i text opens (some (suc k)) h =
    let here : opens i ≡ true = subst (λ j. opens j ≡ true) (omega arith) (h.1 0 (omega arith)) in
    rw (
      here,
      open_sessions-tried left (suc i) text opens (some k) (
        omega (arith, h.0),
        (λ j less. subst (λ m. opens m ≡ true) (omega arith) (h.1 (suc j) (omega arith))),
        subst (λ m. opens m ≡ false) (omega arith) h.2,
      ),
    )

module _ (o : Outside) (opts : Options) where
  -- With options that are parsed, a pool of sessions that can be made and one thread or more,
  -- `main` opens the sessions in their order up to the first that fails, and then runs the servers
  -- all the same: each part gets the next service in turn, the tables of messages and of uris are
  -- filled before the server that reads them starts, and when the event loop ends it returns 0.
  pub main-served :
      (failure : Option ℕ) (n : ℕ)
      → opts.help ≡ false
      → o.pool_made ≡ true
      → to_size_t opts.num_threads ≡ suc n
      → IsFirstFailure 0 (to_size_t opts.pool_size) o.opens failure
      → main o (some opts) ≡ (
        tried 0 (to_size_t opts.pool_size) (connection_string opts) failure
            ++ served (suc n) (listens o.http),
        0,
      )
  unfolding main returned
  main-served failure n help made threads first =
      let ran : (new_pool (suc n) >>= run_servers o) ≡ ok (served (suc n) (listens o.http)) =
        ap (λ pool. pool >>= run_servers o) (new_pool_lem n)
        ∙ run_servers_lem o (suc n) (omega arith) in
      let sessions =
        open_sessions-tried (to_size_t opts.pool_size) 0 (connection_string opts) o.opens failure
          first in
      rw (sessions, threads, ran, made, help)
