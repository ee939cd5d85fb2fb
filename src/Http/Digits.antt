-- ===== src/Http/Digits.antt =====
-- Numbers as this code prints and reads them.
use mathlib.Core.List.{foldl}
use avrouter.Prelude.{
  ℕ, ◌+◌, ◌-◌, ◌*◌, ◌^◌, ◌<◌, ◌≡◌, ◌≢◌, refl, ap, ◌∙◌, false, [], ◌∷◌, ◌++◌, Bytes, All, arith,
  u32_mod, int_mod,
}
use avrouter.Prelude.Decimal.{
  decimal, decimal_int, IsDigit, decimal_from-All, decimal_from-ne_nil, read-decimal_from,
}
use avrouter.Http.Chars.{is_ctl, is_digit}
use avrouter.Http.Request.{digits_value}
use avrouter.Http.RequestParser.{add_digit}
use avrouter.Http.RequestParser.Parts.{AllTrue, is_text}
use avrouter.Http.Headers.{is_space, clamp_pos, atoi64, max64}

pub digits-number : (xs : Bytes) → All IsDigit xs → AllTrue is_digit xs
unfolding is_digit
digits-number [] h = tt
digits-number (c ∷ cs) h = (ground (arith, h.0), digits-number cs h.1)

number-concat :
    (v : ℕ) (xs : Bytes) (c : ℕ)
    → foldl add_digit v (xs ++ c ∷ []) ≡ add_digit (foldl add_digit v xs) c
number-concat v [] c = refl
number-concat v (x ∷ xs) c = number-concat (add_digit v x) xs c

-- A number that is printed is read back digit by digit.
pub number-decimal : (n : ℕ) → n < u32_mod → foldl add_digit 0 (decimal n) ≡ n
number-decimal n h =
    read-decimal_from add_digit (foldl add_digit) u32_mod (λ v. refl)
      (λ v xs c d e. number-concat v xs c) (λ v c d e. refl) 20 n (omega arith) h

digits_value-concat :
    (v : ℕ) (xs : Bytes) (c : ℕ)
    → All IsDigit xs
    → IsDigit c
    → digits_value v (xs ++ c ∷ []) ≡ digits_value v xs * 10 + (c - b'0')
digits_value-concat v [] c h d = ground arith
digits_value-concat v (x ∷ xs) c h d =
    ground (arith, h.0, digits_value-concat (v * 10 + (x - b'0')) xs c h.1 d)

digits_value-decimal : (n : ℕ) → n < 2 ^ 63 → digits_value 0 (decimal n) ≡ n
digits_value-decimal n h =
    read-decimal_from (λ v c. v * 10 + (c - b'0')) digits_value (2 ^ 63) (λ v. refl)
      digits_value-concat (λ v c d e. refl) 20 n (omega arith) h

atoi64-digits : (xs : Bytes) → xs ≢ [] → All IsDigit xs → atoi64 xs ≡ clamp_pos (digits_value 0 xs)
unfolding atoi64
atoi64-digits [] ne h = absurd (ne refl)
atoi64-digits (c ∷ cs) ne h = ground (arith, h.0)

pub atoi64-decimal : (n : ℕ) → n < 2 ^ 63 → atoi64 (decimal n) ≡ n
atoi64-decimal n h =
    atoi64-digits (decimal n) (decimal_from-ne_nil 19 n) (decimal_from-All 20 n)
    ∙ ap clamp_pos (digits_value-decimal n h)
    ∙ ground arith

pub max64-zero : (n : ℕ) → n < 2 ^ 63 → max64 n 0 ≡ n
unfolding max64
max64-zero n h = ground arith

pub decimal_int-decimal : (w : ℕ) → w < int_mod → decimal_int w ≡ decimal w
decimal_int-decimal w h = ground arith

pub digits-solid : (xs : Bytes) → All IsDigit xs → All (λ c. is_space c ≡ false) xs
digits-solid [] h = tt
digits-solid (c ∷ cs) h = (ground (arith, h.0), digits-solid cs h.1)

pub digits-text : (xs : Bytes) → All IsDigit xs → AllTrue is_text xs
unfolding is_ctl
digits-text [] h = tt
digits-text (c ∷ cs) h = (ground (arith, h.0), digits-text cs h.1)
