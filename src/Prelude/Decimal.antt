-- ===== src/Prelude/Decimal.antt =====
-- Numbers in decimal, as a stream prints them.
use Prim.Native.Nat.{ℕ, zero, suc, ◌+◌, ◌-◌, ◌*◌, ◌/◌, ◌%◌, ◌≤◌, ◌<◌}
use mathlib.Core.Path.{◌≡◌, ap, ◌∙◌}
use mathlib.Core.Logic.{◌≢◌, inl, inr}
use mathlib.Core.List.{[], ◌∷◌, ◌++◌}
use native.Mathlib.Omega.{arith}
use avrouter.Prelude.Tests.{ltb, if◌then◌else◌, Bool-cases}
use avrouter.Prelude.Strings.{Bytes}
use avrouter.Prelude.Lists.{All, All-append}
use avrouter.Prelude.Word.{is_negative, u32_mod}

-- At most so many digits.
unfoldable pub decimal_from : ℕ → ℕ → Bytes
decimal_from zero n = []
decimal_from (suc fuel) n =
    let rest = decimal_from fuel (n / 10) in
    if ltb n 10 then (b'0' + n) ∷ [] else rest ++ (b'0' + n % 10) ∷ []

-- Twenty digits are enough for a `size_t`.
abbrev pub decimal : ℕ → Bytes
decimal n = decimal_from 20 n

-- An `int`.
abbrev pub decimal_int : ℕ → Bytes
decimal_int w = if is_negative w then b'-' ∷ decimal (u32_mod - w) else decimal w

abbrev pub power : ℕ → ℕ
power zero = 1
power (suc k) = 10 * power k

abbrev pub IsDigit : ℕ → Type 0
IsDigit c = (b'0' ≤ c) × (c ≤ b'9')

pub decimal_from-All : (fuel n : ℕ) → All IsDigit (decimal_from fuel n)
unfolding decimal_from
decimal_from-All zero n = tt
decimal_from-All (suc fuel) n = elim (Bool-cases (ltb n 10)) [
  | inl h ↦ rw h (ground arith)
  | inr h ↦ rw h (All-append IsDigit _ _ (decimal_from-All fuel (n / 10)) (omega arith))
]

concat-ne_nil : (xs : Bytes) (c : ℕ) → (xs ++ c ∷ []) ≢ []
concat-ne_nil [] c e = cc
concat-ne_nil (x ∷ xs) c e = cc

pub decimal_from-ne_nil : (fuel n : ℕ) → decimal_from (suc fuel) n ≢ []
unfolding decimal_from
decimal_from-ne_nil fuel n = elim (Bool-cases (ltb n 10)) [
  | inl h ↦ rw h (λ e. cc)
  | inr h ↦ rw h (concat-ne_nil (decimal_from fuel (n / 10)) (b'0' + n % 10))
]

-- Reading digits one by one, as every reader here does.
module _ (next : ℕ → ℕ → ℕ) (read : ℕ → Bytes → ℕ) (bound : ℕ) (read_nil : (v : ℕ) → read v [] ≡ v)
    (read_snoc : (v : ℕ) (xs : Bytes) (c : ℕ)
      → All IsDigit xs
      → IsDigit c
      → read v (xs ++ c ∷ []) ≡ next (read v xs) c)
    (next_lem : (v c : ℕ)
      → IsDigit c
      → v * 10 + (c - b'0') < bound
      → next v c ≡ v * 10 + (c - b'0')) where
  pub read-decimal_from :
      (fuel n : ℕ) → n < power fuel → n < bound → read 0 (decimal_from fuel n) ≡ n
  unfolding decimal_from
  read-decimal_from zero n h k = read_nil 0 ∙ omega arith
  read-decimal_from (suc fuel) n h k = elim (Bool-cases (ltb n 10)) [
    | inl small ↦ rw small (
        let c = b'0' + n in
        let d : IsDigit c = ground (arith, small) in
        read_snoc 0 [] c tt d
        ∙ ap (λ v. next v c) (read_nil 0)
        ∙ next_lem 0 c d (omega arith)
        ∙ omega arith)
    | inr large ↦ rw large (
        let c = b'0' + n % 10 in
        let d : IsDigit c = omega arith in
        let more : 10 ≤ n = ground (arith, large) in
        read_snoc 0 (decimal_from fuel (n / 10)) c (decimal_from-All fuel (n / 10)) d
        ∙ ap (λ v. next v c) (read-decimal_from fuel (n / 10) (omega arith) (omega arith))
        ∙ next_lem (n / 10) c d (omega arith)
        ∙ omega arith)
  ]
