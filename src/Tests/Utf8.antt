-- ===== src/Tests/Utf8.antt =====
-- Texts in a locale whose encoding is ISO-8859-1.
use avrouter.Prelude.{
  ℕ, ◌≡◌, refl, ap, [], ◌∷◌, Option, none, some, Bytes, length, if◌then◌else◌, ◌==◌, ltb,
  Bool-cases, inl, inr, ok, arith,
}
use avrouter.Utf8.{
  Locale, Conv, wide_ansi, ansi_wide, wide_ansi_from, ansi_wide_from, ansi_utf8, utf8_ansi,
}
use avrouter.Utf8.RoundTrip.{IsCodec, kept, ansi_utf8-utf8_ansi}

abbrev read_latin : Bytes → Option (ℕ × ℕ × ℕ)
read_latin [] = none
read_latin (b ∷ bs) = some (if b == 0 then 0 else 1, b, 0)

abbrev write_latin : ℕ → Option (Bytes × ℕ)
write_latin c = if ltb c 256 then some (c ∷ [], 0) else none

abbrev latin : Locale
latin = record {
  Shift = ℕ;
  initial = 0;
  mbtowc = λ s bytes. read_latin bytes;
  wctomb = λ s c. write_latin c;
}

write_latin_lem :
    (c x : ℕ) (bytes : Bytes) → write_latin c ≡ some (bytes, x) → (bytes ≡ c ∷ []) × (x ≡ 0)
write_latin_lem c x bytes e = elim (Bool-cases (ltb c 256)) [
  | inl small ↦ let w : some (c ∷ [], 0) ≡ some (bytes, x) = rw small at e in (cc, cc)
  | inr big ↦ let w : none ≡ some (bytes, x) = rw big at e in cc
]

latin-IsCodec : IsCodec latin
latin-IsCodec = record {
  writes = λ s s' c bytes e. let w = write_latin_lem c s' bytes e in omega (arith, ap length w.0);
  reads = λ s s' c bytes rest e. let w = write_latin_lem c s' bytes e in rw (w.0, w.1) refl;
}

-- Both encodings hold a wide character in a byte.
abbrev plain_conv : Conv
plain_conv = record {
  utf_to_wide = λ bytes. bytes;
  utf_to_char = λ wide. wide;
  between = λ bytes to from. ok bytes;
}

-- What is behind the null character is lost, and so is what is behind a character that Latin-1 does
-- not have.
ansi_utf8-utf8_ansi_example :
    ansi_utf8 plain_conv latin (utf8_ansi plain_conv latin (228 ∷ 97 ∷ 8364 ∷ 98 ∷ []))
    ≡ ok (228 ∷ 97 ∷ [])
unfolding kept
ansi_utf8-utf8_ansi_example =
    ansi_utf8-utf8_ansi latin latin-IsCodec plain_conv (228 ∷ 97 ∷ 8364 ∷ 98 ∷ []) refl

null_cuts : ansi_wide latin (wide_ansi latin (97 ∷ 0 ∷ 98 ∷ [])) ≡ ok (97 ∷ [])
unfolding ansi_wide wide_ansi ansi_wide_from wide_ansi_from
null_cuts = refl
