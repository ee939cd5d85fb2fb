-- ===== src/IoServicePool/Turns.antt =====
-- Which services are chosen, in which order.
use mathlib.Core.Path.{subst}
use native.Mathlib.Nat.{mod-add-mod, zero-mod, mod-lt}
use avrouter.Prelude.{
  runtime_error, ℕ, zero, suc, ◌+◌, ◌%◌, ◌<◌, ◌≡◌, refl, sym, ap, ◌∙◌, List, [], ◌∷◌, ◌++◌,
  append_assoc, append-nil, some, Run, ok, fault, ◌>>=◌, arith, length, get_elem?,
}
use avrouter.IoServicePool.{IoServicePool, add_services, new_pool, service_at, get_io_service}

-- The services of a run of calls of `get_io_service`.
unfoldable pub choose : ℕ → IoServicePool → Run (List ℕ)
choose zero pool = ok []
choose (suc n) pool = do
  chosen ← get_io_service pool
  rest ← choose n chosen.1
  ok (chosen.0 ∷ rest)

abbrev pub from_to : ℕ → ℕ → List ℕ
from_to start zero = []
from_to start (suc n) = start ∷ from_to (suc start) n

-- The pool of `n` services before the call that chooses service `i`.
abbrev pub pool_at : ℕ → ℕ → IoServicePool
pool_at n i = record { io_services = from_to 0 n; work = from_to 0 n; next_io_service = i }

-- The numbers modulo `n`, in turn.
abbrev pub in_turn : ℕ → ℕ → ℕ → List ℕ
in_turn n i zero = []
in_turn n i (suc k) = i % n ∷ in_turn n (suc i) k

get_elem?-from_to : (n i start : ℕ) → i < n → get_elem? (from_to start n) i ≡ some (start + i)
get_elem?-from_to zero i start h = absurd (omega arith)
get_elem?-from_to (suc n) zero start h = ap some (omega arith)
get_elem?-from_to (suc n) (suc i) start h =
    get_elem?-from_to n i (suc start) (omega arith) ∙ ap some (omega arith)

length-from_to : (n start : ℕ) → length (from_to start n) ≡ n
length-from_to zero start = refl
length-from_to (suc n) start = ap suc (length-from_to n (suc start))

add_services_lem :
    (n made : ℕ) (services work : List ℕ)
    → add_services n made (record { io_services = services; work = work; next_io_service = 0 })
      ≡ record {
        io_services = services ++ from_to made n;
        work = work ++ from_to made n;
        next_io_service = 0;
      }
unfolding add_services
add_services_lem zero made services work = rw (append-nil services, append-nil work)
add_services_lem (suc n) made services work =
    add_services_lem n (suc made) (services ++ made ∷ []) (work ++ made ∷ [])
    ∙ rw (append_assoc services, append_assoc work)

pub get_io_service_lem :
    (n i : ℕ) → 0 < n → get_io_service (pool_at n (i % n)) ≡ ok (i % n, pool_at n (suc i % n))
unfolding get_io_service service_at
get_io_service_lem n i h =
    let next : (i % n + 1) % n ≡ suc i % n =
      mod-add-mod i n 1 ∙ subst (λ j. (i + 1) % n ≡ j % n) (omega arith) refl in
    let from_zero : 0 + i % n ≡ i % n = omega arith in
    rw (
      get_io_service,
      service_at,
      get_elem?-from_to n (i % n) 0 (mod-lt i h),
      length-from_to n 0,
      next,
      from_zero,
    )

choose-in_turn : (k n i : ℕ) → 0 < n → choose k (pool_at n (i % n)) ≡ ok (in_turn n i k)
unfolding choose
choose-in_turn zero n i h = refl
choose-in_turn (suc k) n i h = rw (get_io_service_lem n i h, choose-in_turn k n (suc i) h)

pub new_pool_lem : (n : ℕ) → new_pool (suc n) ≡ ok (pool_at (suc n) (0 % suc n))
unfolding new_pool
new_pool_lem n =
    rw (add_services_lem (suc n) 0 [] [])
      (subst (λ j. ok (pool_at (suc n) 0) ≡ ok (pool_at (suc n) j)) (sym (zero-mod (suc n))) refl)

-- A pool of one service or more hands them out in turn, beginning with the first: call number `j`
-- of `get_io_service` gives service `j` modulo their number. A pool of none is refused.
pub new_pool-choose :
    (n k : ℕ)
    → (new_pool zero ≡ fault runtime_error)
      × ((new_pool (suc n) >>= choose k) ≡ ok (in_turn (suc n) 0 k))
unfolding new_pool
new_pool-choose n k = (
  refl,
  ap (λ pool. pool >>= choose k) (new_pool_lem n) ∙ choose-in_turn k (suc n) 0 (omega arith),
)
