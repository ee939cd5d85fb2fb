-- ===== src/Escape/Path/RoundTrip.antt =====
-- `unescape_path` after `escape_path`.
use avrouter.Prelude.{
  ℕ, zero, suc, ◌+◌, ◌*◌, ◌/◌, ◌%◌, ◌<◌, ◌≤◌, ◌≡◌, refl, ap, ◌∙◌, Bool, true, false, Bool-cases,
  not, ◌&&◌, ◌||◌, inl, inr, [], ◌∷◌, ◌++◌, length, none, some, Bytes, All, if◌then◌else◌, ◌==◌,
  passes_below, passes_below_sound, arith,
}
use avrouter.Escape.Path.{
  is_char, is_tspecial, hex_char, to_hex, escape_path, hex_value, is_plain, next_byte, grow,
  unescape_from, unescape_path,
}

abbrev pub is_escaped : ℕ → Bool
is_escaped c = not (is_char c) || is_tspecial c

-- A byte that `escape_path` escapes or that `unescape_path` takes as it is.
pub record IsEscapable (c : ℕ) : Type 0 where
  pub byte : c < 256
  pub covered : (is_escaped c || is_plain c) ≡ true

-- The two digits of a byte give the byte.
has_digits : ℕ → Bool
has_digits c = elim (hex_value (hex_char (c / 16))) [
  | none ↦ false
  | some high ↦ elim (hex_value (hex_char (c % 16))) [
    | none ↦ false
    | some low ↦ high * 16 + low == c
  ]
]

has_digits_all : (c : ℕ) → c < 256 → has_digits c ≡ true
unfolding has_digits hex_char hex_value passes_below
has_digits_all c h = passes_below_sound has_digits 256 c h refl

next_byte-escaped :
    (c : ℕ) (rest : Bytes)
    → c < 256
    → next_byte b'%' (hex_char (c / 16) ∷ hex_char (c % 16) ∷ rest) ≡ some (c, rest)
unfolding next_byte has_digits
next_byte-escaped c rest h = ground (arith, has_digits_all c h)

-- No character that stands for itself is one that stands for something else.
is_clear : ℕ → Bool
is_clear c = not (is_plain c) || (not (c == b'%') && not (c == b'+'))

is_clear_all : (c : ℕ) → c < 256 → is_clear c ≡ true
unfolding is_clear is_plain passes_below
is_clear_all c h = passes_below_sound is_clear 256 c h refl

next_byte-plain :
    (c : ℕ) (rest : Bytes) → c < 256 → is_plain c ≡ true → next_byte c rest ≡ some (c, rest)
unfolding next_byte is_clear
next_byte-plain c rest h p = ground (arith, is_clear_all c h)

escape_char : ℕ → Bytes
escape_char c = if is_escaped c then b'%' ∷ hex_char (c / 16) ∷ hex_char (c % 16) ∷ [] else c ∷ []

escape_path-cons : (c : ℕ) (cs : Bytes) → escape_path (c ∷ cs) ≡ escape_char c ++ escape_path cs
unfolding escape_path to_hex escape_char
escape_path-cons c cs = refl

-- One turn takes what `escape_path` has made of one character.
unescape_char :
    (fuel c : ℕ) (rest : Bytes)
    → IsEscapable c
    → unescape_from (suc fuel) (escape_char c ++ rest) ≡ grow (some (c, rest)) (unescape_from fuel)
unfolding escape_char unescape_from
unescape_char fuel c rest v = elim (Bool-cases (is_escaped c)) [
  | inl e ↦ rw (e, next_byte-escaped c rest v.byte)
  | inr e ↦
      let plain : is_plain c ≡ true = ground (arith, v.covered, e) in
      rw (e, next_byte-plain c rest v.byte plain)
]

longer : (c : ℕ) (rest : Bytes) → length rest < length (escape_char c ++ rest)
unfolding escape_char
longer c rest = ground arith

unescape_nothing : (fuel : ℕ) → unescape_from fuel (escape_path []) ≡ (true, [])
unfolding unescape_from escape_path
unescape_nothing zero = refl
unescape_nothing (suc fuel) = refl

unescape_enough :
    (s : Bytes) (fuel : ℕ)
    → All IsEscapable s
    → length (escape_path s) ≤ fuel
    → unescape_from fuel (escape_path s) ≡ (true, s)
unescape_enough [] fuel v h = unescape_nothing fuel
unescape_enough (c ∷ cs) zero v h =
    absurd (omega (arith, h, longer c (escape_path cs), ap length (escape_path-cons c cs)))
unescape_enough (c ∷ cs) (suc fuel) (v, vs) h =
    let size : length (escape_path cs) ≤ fuel =
      omega (arith, h, longer c (escape_path cs), ap length (escape_path-cons c cs)) in
    ap (unescape_from (suc fuel)) (escape_path-cons c cs)
    ∙ unescape_char fuel c (escape_path cs) v
    ∙ rw (unescape_enough cs fuel vs size)

-- Every string of letters, digits, the characters that `unescape_path` takes as they are, and those
-- that `escape_path` escapes, comes back as it was. That leaves out the other characters, among
-- them `%` and `+`, which `escape_path` does not escape.
pub unescape_path-escape_path :
    (s : Bytes) → All IsEscapable s → unescape_path (escape_path s) ≡ (true, s)
unescape_path-escape_path s v = unescape_enough s (length (escape_path s)) v (omega arith)
