-- ===== src/Utf8/Turns.antt =====
-- The loop of `ansi_wide` ends: as many turns as there are bytes are enough.
use avrouter.Prelude.{
  ℕ, zero, suc, ◌≤◌, ◌≡◌, refl, Bool-cases, Option-cases, inl, inr, [], ◌∷◌, Bytes, length, drop,
  length-drop, ltb, arith,
}
use avrouter.Utf8.{Locale, ansi_wide_from}

module _ (locale : Locale) where
  pub ansi_wide_from-enough :
      (turns more : ℕ) (s : locale.Shift) (rest : Bytes)
      → length rest ≤ turns
      → length rest ≤ more
      → ansi_wide_from locale turns s rest ≡ ansi_wide_from locale more s rest
  unfolding ansi_wide_from
  ansi_wide_from-enough zero zero s rest h k = refl
  ansi_wide_from-enough zero (suc more) s [] h k = refl
  ansi_wide_from-enough zero (suc more) s (c ∷ cs) h k = absurd (omega (arith, h))
  ansi_wide_from-enough (suc turns) zero s [] h k = refl
  ansi_wide_from-enough (suc turns) zero s (c ∷ cs) h k = absurd (omega (arith, k))
  ansi_wide_from-enough (suc turns) (suc more) s [] h k = refl
  ansi_wide_from-enough (suc turns) (suc more) s (c ∷ cs) h k =
      elim (Option-cases (locale.mbtowc s (c ∷ cs))) [
        | inl e ↦ rw (e, ansi_wide_from)
        | inr e ↦
            let n = e.0.0 in
            elim (Bool-cases (ltb n 1)) [
              | inl none_read ↦ rw (e.1, ansi_wide_from, none_read)
              | inr some_read ↦
                  let shorter = length-drop n (c ∷ cs) in
                  let one : 1 ≤ n = ground (arith, some_read) in
                  rw (
                    e.1,
                    ansi_wide_from,
                    some_read,
                    ansi_wide_from-enough turns more e.0.2 (drop n (c ∷ cs))
                        (omega (arith, shorter, one, h)) (omega (arith, shorter, one, k)),
                  )
            ]
      ]
