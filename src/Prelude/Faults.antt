-- ===== src/Prelude/Faults.antt =====
-- What a C++ call can come to: a value, or a fault. A fault is undefined behaviour or an exception
-- that nothing on the path catches; it ends the run.
use mathlib.Core.Path.{◌≡◌, refl}
use mathlib.Core.Logic.{◌⊎◌, inl, inr}

pub data Fault : Type 0 where
  -- a read outside the object that holds the bytes
  out_of_bounds : Fault
  -- a range whose end lies before its beginning
  bad_range : Fault
  -- a null pointer or an end iterator that is dereferenced
  null_pointer : Fault
  -- `front`, `back` or `pop_front` of an empty container
  empty_container : Fault
  -- a sum or a product of an `int` that has no such value
  int_overflow : Fault
  -- boost::bad_any_cast, std::length_error, std::out_of_range, std::runtime_error
  bad_any_cast : Fault
  length_error : Fault
  out_of_range : Fault
  runtime_error : Fault

pub data Run {ℓ} (A : Type ℓ) : Type ℓ where
  fault : Fault → Run A
  ok : A → Run A

-- A fault skips what follows.
infixl 5 ◌>>=◌
abbrev pub ◌>>=◌ {ℓ κ} : {A : Type ℓ} {B : Type κ} → Run A → (A → Run B) → Run B
fault why >>= next = fault why
ok value >>= next = next value

pub Run-cases {ℓ} :
    {A : Type ℓ} (m : Run A) → ((a : A) × (m ≡ ok a)) ⊎ ((f : Fault) × (m ≡ fault f))
Run-cases (ok a) = inl (a, refl)
Run-cases (fault f) = inr (f, refl)

-- A chain that ends well ended well at its first link.
pub >>=-eq-ok {ℓ κ} :
    {A : Type ℓ} {B : Type κ} (m : Run A) (next : A → Run B) {result : B}
    → (m >>= next) ≡ ok result
    → (value : A) × (m ≡ ok value) × (next value ≡ ok result)
>>=-eq-ok (fault why) next h = cc
>>=-eq-ok (ok value) next h = (value, refl, h)

-- A step that cannot fault, between one that can and the rest.
pub >>=-ok {ℓ κ μ} :
    {A : Type ℓ} {B : Type κ} {C : Type μ} (m : Run A) (f : A → B) (next : B → Run C)
    (h : A → Run C)
    → ((a : A) → next (f a) ≡ h a)
    → ((m >>= λ a. ok (f a)) >>= next) ≡ (m >>= h)
>>=-ok (fault why) f next h e = refl
>>=-ok (ok a) f next h e = e a

-- What follows of the links of a chain that ended well.
pub >>=-elim {ℓ κ μ} :
    {A : Type ℓ} {B : Type κ} {P : Type μ} (m : Run A) (next : A → Run B) {result : B}
    → (m >>= next) ≡ ok result
    → ((value : A) → m ≡ ok value → next value ≡ ok result → P)
    → P
>>=-elim m next h f = let (value, first, later) = >>=-eq-ok m next h in f value first later
