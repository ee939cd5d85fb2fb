-- ===== src/Escape/Base64/RoundTrip.antt =====
-- `base64_decode` after `base64_encode`.
use avrouter.Prelude.{ℕ, ◌≡◌, Bool, true, not, ◌&&◌, ◌==◌}
use avrouter.Escape.Base64.{char_at, find_char, is_base64}

-- Every index is found again by its character, which the decoder does not stop at.
good_index : ℕ → Bool
good_index i = find_char (char_at i) == i && (not (char_at i == b'=') && is_base64 (char_at i))

record IsGood (i : ℕ) : Type 0 where
  found : find_char (char_at i) ≡ i
  goes_on : (not (char_at i == b'=') && is_base64 (char_at i)) ≡ true
