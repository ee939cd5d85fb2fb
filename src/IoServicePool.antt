-- ===== src/IoServicePool.antt =====
-- src/io_service_pool.cpp: the services, the choice of one in turn, and what is done with the
-- threads.
pub mod Turns
use avrouter.Prelude.{
  ℕ, zero, suc, ◌+◌, ◌%◌, Bool, true, false, List, [], ◌∷◌, ◌++◌, Option, none, some, Run, ok,
  fault, runtime_error, out_of_bounds, ◌>>=◌, length, get_elem?, map,
}

-- The services are numbered in the order in which they are made.
pub record IoServicePool : Type 0 where
  pub io_services : List ℕ
  pub work : List ℕ
  pub next_io_service : ℕ

-- The loop of the constructor, at `i` of the services still to make.
add_services : ℕ → ℕ → IoServicePool → IoServicePool
add_services zero made pool = pool
add_services (suc left) made pool =
    add_services left (suc made)
      (record pool { io_services = pool.io_services ++ made ∷ []; work = pool.work ++ made ∷ [] })

unfoldable pub new_pool : ℕ → Run IoServicePool
unfolding add_services
new_pool zero = fault runtime_error
new_pool (suc n) =
    ok (add_services (suc n) 0 (record { io_services = []; work = []; next_io_service = 0 }))

-- `*io_services_[i]`.
service_at : ℕ → List ℕ → Run ℕ
service_at i services = elim (get_elem? services i) [
  | none ↦ fault out_of_bounds
  | some service ↦ ok service
]

unfoldable pub get_io_service : IoServicePool → Run (ℕ × IoServicePool)
unfolding service_at
get_io_service pool = do
  service ← service_at pool.next_io_service pool.io_services
  ok (
    service,
    record pool { next_io_service = (pool.next_io_service + 1) % length pool.io_services },
  )

-- The calls of asio and of the threads, by the number of the service.
pub data PoolEffect : Type 0 where
  -- `io_service::run` on the thread of the caller
  run_here : ℕ → PoolEffect
  -- a new thread that calls it
  start_thread : ℕ → PoolEffect
  join_thread : ℕ → PoolEffect
  stop_service : ℕ → PoolEffect

abbrev run_services : List ℕ → List PoolEffect
run_services (service ∷ []) = run_here service ∷ []
run_services services = map (λ s. start_thread s) services ++ map (λ s. join_thread s) services

unfoldable pub run : IoServicePool → List PoolEffect
run pool = run_services pool.io_services

unfoldable pub stop : IoServicePool → List PoolEffect
stop pool = map (λ s. stop_service s) pool.io_services
