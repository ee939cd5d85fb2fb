-- ===== src/Utf8/RoundTrip.antt =====
-- What is left of a text that goes to the encoding of the locale and back.
use avrouter.Prelude.{
  ℕ, zero, suc, ◌+◌, ◌≤◌, ◌≡◌, refl, ap, ◌∙◌, Bool-cases, Option-cases, inl, inr, true, false, [],
  ◌∷◌, ◌++◌, none, some, Bytes, length, drop, ltb, ◌==◌, if◌then◌else◌, ok, Bool, fault, ◌>>=◌,
  out_of_bounds, length-append, drop_prefix, arith,
}
use avrouter.Utf8.{
  Wide, Locale, Conv, ansi_wide_from, ansi_wide, wide_ansi_from, wide_ansi, wide_utf8, ansi_utf8,
  utf8_ansi,
}

module _ (conv : Conv) where
  -- boost converts this text to UTF-8 and back.
  abbrev pub IsText : Wide → Type 0
  IsText source = conv.utf_to_wide (conv.utf_to_char source) ≡ source

-- What the C standard says of the two functions in one locale: a character is one byte or more,
-- and `mbtowc` reads back what `wctomb` writes, with length 0 for the null character.
pub record IsCodec (locale : Locale) : Type 0 where
  pub writes :
      (s s' : locale.Shift) (c : ℕ) (bytes : Bytes)
      → locale.wctomb s c ≡ some (bytes, s')
      → 1 ≤ length bytes
  pub reads :
      (s s' : locale.Shift) (c : ℕ) (bytes rest : Bytes)
      → locale.wctomb s c ≡ some (bytes, s')
      → locale.mbtowc s (bytes ++ rest) ≡ some (if c == 0 then 0 else length bytes, c, s')

if-ok : {A : Type 0} (b : Bool) (x y : A) → (if b then ok x else ok y) ≡ ok (if b then x else y)
if-ok true x y = refl
if-ok false x y = refl

module _ (locale : Locale) where
  -- The text before its first character that is null or that the locale does not have.
  unfoldable pub kept : locale.Shift → Wide → Wide
  kept shift [] = []
  kept shift (c ∷ cs) = elim (locale.wctomb shift c) [
    | none ↦ []
    | some (bytes, shift1) ↦ let later = kept shift1 cs in if c == 0 then [] else c ∷ later
  ]

  -- One turn at a text that is not at its end.
  turn :
      (n c : ℕ) (s s' : locale.Shift) (turns : ℕ) (bytes rest : Bytes)
      → 1 ≤ length bytes
      → locale.mbtowc s (bytes ++ rest) ≡ some (n, c, s')
      → ansi_wide_from locale (suc turns) s (bytes ++ rest) ≡ (
          if ltb n 1
          then ok []
          else if ltb (length (bytes ++ rest)) n
          then fault out_of_bounds
          else (ansi_wide_from locale turns s' (drop n (bytes ++ rest)) >>= λ w. ok (c ∷ w)))
  unfolding ansi_wide_from
  turn n c s s' turns [] rest h e = absurd (omega (arith, h))
  turn n c s s' turns (b ∷ bs) rest h e = rw e

  at_end : (turns : ℕ) (s : locale.Shift) → ansi_wide_from locale turns s [] ≡ ok []
  unfolding ansi_wide_from
  at_end zero s = refl
  at_end (suc turns) s = refl

  module _ (codec : IsCodec locale) where
    -- A turn at a character that `wctomb` has written.
    read_turn :
        (s s' : locale.Shift) (c : ℕ) (turns : ℕ) (bytes rest : Bytes)
        → locale.wctomb s c ≡ some (bytes, s')
        → ansi_wide_from locale (suc turns) s (bytes ++ rest)
          ≡ (if c == 0 then ok [] else (ansi_wide_from locale turns s' rest >>= λ w. ok (c ∷ w)))
    read_turn s s' c turns bytes rest e =
        let some_bytes = codec.writes s s' c bytes e in
        let read = codec.reads s s' c bytes rest e in
        elim (Bool-cases (c == 0)) [
          | inl null ↦ turn 0 c s s' turns bytes rest some_bytes (read ∙ rw null) ∙ rw null
          | inr other ↦
              let long : ltb (length bytes) 1 ≡ false = ground (arith, some_bytes) in
              let fits : ltb (length (bytes ++ rest)) (length bytes) ≡ false =
                ground (arith, length-append bytes rest) in
              turn (length bytes) c s s' turns bytes rest some_bytes (read ∙ rw other)
              ∙ rw (other, long, fits, drop_prefix bytes rest (length bytes) refl)
        ]

    written :
        (s s' : locale.Shift) (c : ℕ) (cs : Wide) (bytes : Bytes)
        → locale.wctomb s c ≡ some (bytes, s')
        → wide_ansi_from locale s (c ∷ cs) ≡ bytes ++ wide_ansi_from locale s' cs
    unfolding wide_ansi_from
    written s s' c cs bytes e =
        let long : ltb (length bytes) 1 ≡ false = ground (arith, codec.writes s s' c bytes e) in
        rw (e, wide_ansi_from, long)

    kept_step :
        (s s' : locale.Shift) (c : ℕ) (cs : Wide) (bytes : Bytes)
        → locale.wctomb s c ≡ some (bytes, s')
        → kept s (c ∷ cs) ≡ (if c == 0 then [] else c ∷ kept s' cs)
    unfolding kept
    kept_step s s' c cs bytes e = rw (e, kept)

    -- A text whose rest is read back is read back, with turns enough for its bytes.
    next_turn :
        (turns : ℕ) (s s' : locale.Shift) (c : ℕ) (cs : Wide) (bytes : Bytes)
        → locale.wctomb s c ≡ some (bytes, s')
        → length bytes + length (wide_ansi_from locale s' cs) ≤ turns
        → ((left : ℕ)
            → length (wide_ansi_from locale s' cs) ≤ left
            → ansi_wide_from locale left s' (wide_ansi_from locale s' cs) ≡ ok (kept s' cs))
        → ansi_wide_from locale turns s (wide_ansi_from locale s (c ∷ cs)) ≡ ok (kept s (c ∷ cs))
    next_turn zero s s' c cs bytes e h later =
        absurd (omega (arith, h, codec.writes s s' c bytes e))
    next_turn (suc turns) s s' c cs bytes e h later =
        let rest = later turns (omega (arith, h, codec.writes s s' c bytes e)) in
        ap (ansi_wide_from locale (suc turns) s) (written s s' c cs bytes e)
        ∙ read_turn s s' c turns bytes (wide_ansi_from locale s' cs) e
        ∙ rw (rest, kept_step s s' c cs bytes e) (if-ok (c == 0) [] (c ∷ kept s' cs))

    ansi_wide_from-wide_ansi_from :
        (turns : ℕ) (s : locale.Shift) (source : Wide)
        → length (wide_ansi_from locale s source) ≤ turns
        → ansi_wide_from locale turns s (wide_ansi_from locale s source) ≡ ok (kept s source)
    unfolding kept wide_ansi_from
    ansi_wide_from-wide_ansi_from turns s [] h = at_end turns s
    ansi_wide_from-wide_ansi_from turns s (c ∷ cs) h = elim (Option-cases (locale.wctomb s c)) [
      | inl e ↦ rw (wide_ansi_from, kept, e) (at_end turns s)
      | inr e ↦
          let bytes = e.0.0 in
          let s' = e.0.1 in
          let total : length bytes + length (wide_ansi_from locale s' cs) ≤ turns = omega (
            arith,
            length-append bytes (wide_ansi_from locale s' cs),
            ap length (written s s' c cs bytes e.1),
            h,
          ) in
          next_turn turns s s' c cs bytes e.1 total
            (λ left. ansi_wide_from-wide_ansi_from left s' cs)
    ]

    -- A text goes to the encoding of the locale and comes back as far as its first character that
    -- is null or that the locale does not have: what is behind it is lost.
    pub ansi_wide-wide_ansi :
        (source : Wide)
        → ansi_wide locale (wide_ansi locale source) ≡ ok (kept locale.initial source)
    unfolding ansi_wide wide_ansi
    ansi_wide-wide_ansi source = ansi_wide_from-wide_ansi_from _ locale.initial source (omega arith)

    -- A text in UTF-8, which boost converts to wide characters and back, goes to the encoding of
    -- the locale and comes back in UTF-8 as far as its first character that is null or that the
    -- locale does not have, with no sign that the rest is lost.
    pub ansi_utf8-utf8_ansi :
        (conv : Conv) (source : Wide)
        → IsText conv source
        → ansi_utf8 conv locale (utf8_ansi conv locale (wide_utf8 conv source))
          ≡ ok (wide_utf8 conv (kept locale.initial source))
    unfolding ansi_utf8 utf8_ansi
    ansi_utf8-utf8_ansi conv source h = rw (h, ansi_wide-wide_ansi source)
