-- ===== src/Http/Headers/Trim.antt =====
-- Trimming.
use avrouter.Prelude.{ℕ, ◌≡◌, refl, false, [], ◌∷◌, Bytes, All, arith, ap, ◌∙◌}
use avrouter.Http.Headers.{is_space, trim_left, trim_right, keep_left, trim}

-- No white space at either end.
pub record IsTrimmed (text : Bytes) : Type 0 where
  pub left : trim_left text ≡ text
  pub right : trim_right text ≡ text

pub trim-IsTrimmed : (text : Bytes) → IsTrimmed text → trim text ≡ text
unfolding trim
trim-IsTrimmed text h = ap trim_left h.right ∙ h.left

-- The blank before a value goes.
pub trim-blank : (text : Bytes) → IsTrimmed text → trim (b' ' ∷ text) ≡ text
unfolding trim
trim-blank [] h = refl
trim-blank (c ∷ cs) h = ap (λ t. trim_left (keep_left b' ' t)) h.right ∙ h.left

keep_solid : (c : ℕ) (cs : Bytes) → is_space c ≡ false → keep_left c cs ≡ c ∷ cs
keep_solid c [] h = rw h
keep_solid c (d ∷ ds) h = refl

-- A text without white space is trimmed.
pub solid-IsTrimmed : (text : Bytes) → All (λ c. is_space c ≡ false) text → IsTrimmed text
solid-IsTrimmed [] h = record { left = refl; right = refl }
solid-IsTrimmed (c ∷ cs) h = record {
  left = ground (arith, h.0);
  right = ap (keep_left c) (solid-IsTrimmed cs h.1).right ∙ keep_solid c cs h.0;
}
