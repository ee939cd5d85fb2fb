-- ===== src/Utf8.antt =====
-- include/utf8.hpp: the conversions between wide strings, UTF-8 and the encoding of the locale.
-- `mbtowc`, `wctomb` and boost's conversions are parameters.
pub mod RoundTrip
pub mod Turns
use avrouter.Prelude.{
  ℕ, zero, suc, List, [], ◌∷◌, ◌++◌, Option, none, some, Bytes, codes, length, drop, ltb,
  if◌then◌else◌, Run, ok, fault, out_of_bounds, ◌>>=◌,
}

-- A wide string, by the numbers of its characters.
abbrev pub Wide : Type 0
Wide = List ℕ

-- The locale of the process, with the state of a conversion from its reset on.
pub record Locale : Type 1 where
  pub Shift : Type 0
  pub initial : Shift
  -- `mbtowc` at bytes of which there are `max`: the length, the character and the state after it,
  -- or -1
  pub mbtowc : Shift → Bytes → Option (ℕ × ℕ × Shift)
  -- `wctomb`: the bytes and the state after them, or -1
  pub wctomb : Shift → ℕ → Option (Bytes × Shift)

-- boost::locale::conv. `between` throws if it does not know an encoding.
pub record Conv : Type 0 where
  pub utf_to_wide : Bytes → Wide
  pub utf_to_char : Wide → Bytes
  pub between : Bytes → Bytes → Bytes → Run Bytes

module _ (locale : Locale) where
  -- The loop of `ansi_wide`, at most so many turns, at the bytes from `i` on: `max` is their
  -- number.
  unfoldable pub ansi_wide_from : ℕ → locale.Shift → Bytes → Run Wide
  ansi_wide_from zero shift rest = ok []
  ansi_wide_from (suc turns) shift [] = ok []
  ansi_wide_from (suc turns) shift (c ∷ cs) = elim (locale.mbtowc shift (c ∷ cs)) [
    | none ↦ ok []
    | some (n, dest, shift1) ↦
        let wide = ansi_wide_from turns shift1 (drop n (c ∷ cs)) in
        if ltb n 1
        then ok []
        else if ltb (length (c ∷ cs)) n
        then fault out_of_bounds
        else (wide >>= λ w. ok (dest ∷ w))
  ]

  unfoldable pub ansi_wide : Bytes → Run Wide
  ansi_wide source = ansi_wide_from (length source) locale.initial source

  -- The loop of `wide_ansi`.
  unfoldable pub wide_ansi_from : locale.Shift → Wide → Bytes
  wide_ansi_from shift [] = []
  wide_ansi_from shift (c ∷ cs) = elim (locale.wctomb shift c) [
    | none ↦ []
    | some (buffer, shift1) ↦
        let ansi = wide_ansi_from shift1 cs in if ltb (length buffer) 1 then [] else buffer ++ ansi
  ]

  unfoldable pub wide_ansi : Wide → Bytes
  wide_ansi source = wide_ansi_from locale.initial source

module _ (conv : Conv) where
  abbrev pub wide_utf8 : Wide → Bytes
  wide_utf8 source = conv.utf_to_char source

  abbrev pub utf8_wide : Bytes → Wide
  utf8_wide source = conv.utf_to_wide source

  -- The conversions with the name of an encoding.
  unfoldable pub ansi_utf8_of : Bytes → Bytes → Run Bytes
  ansi_utf8_of source characters = conv.between source (codes "UTF-8") characters

  unfoldable pub utf8_ansi_of : Bytes → Bytes → Run Bytes
  utf8_ansi_of source characters = conv.between source characters (codes "UTF-8")

  unfoldable pub ansi_wide_of : Bytes → Bytes → Run Wide
  ansi_wide_of source characters =
      ansi_utf8_of source characters >>= λ utf8. ok (conv.utf_to_wide utf8)

  unfoldable pub wide_ansi_of : Wide → Bytes → Run Bytes
  wide_ansi_of source characters = utf8_ansi_of (wide_utf8 source) characters

  module _ (locale : Locale) where
    unfoldable pub ansi_utf8 : Bytes → Run Bytes
    ansi_utf8 source = ansi_wide locale source >>= λ wide. ok (wide_utf8 wide)

    unfoldable pub utf8_ansi : Bytes → Bytes
    utf8_ansi source = wide_ansi locale (utf8_wide source)
