-- ===== src/Http/Form/RoundTrip.antt =====
-- Forms as `key=value&key=value`, and that they are read back.
use avrouter.Prelude.{
  ℕ, ◌/◌, ◌%◌, ◌<◌, ◌≡◌, refl, ap, ◌∙◌, Bool, true, false, Bool-cases, ◌||◌, inl, inr, List, [],
  ◌∷◌, ◌++◌, append-nil, append_assoc, Option, none, Bytes, All, ◌==◌, ok, arith,
}
use avrouter.Escape.Path.{hex_char, to_hex, escape_path}
use avrouter.Escape.Path.RoundTrip.{IsEscapable, is_escaped, unescape_path-escape_path}
use avrouter.Http.Form.{form_loop, unescape_field, parse_form_string, http_form}

-- `=` ends a key, and `&` a value.
abbrev pub Avoids : ℕ → Bytes → Type 0
Avoids mark = All (λ c. (c == mark) ≡ false)

abbrev is_mark : ℕ → Bool
is_mark c = c == b'=' || c == b'&'

hex_char-mark : (mark i : ℕ) → is_mark mark ≡ true → i < 16 → (hex_char i == mark) ≡ false
unfolding hex_char
hex_char-mark mark i h k = ground arith

-- Escaping brings in no mark.
escape_path-Avoids :
    (mark : ℕ) (text : Bytes)
    → is_mark mark ≡ true
    → All IsEscapable text
    → Avoids mark text
    → Avoids mark (escape_path text)
unfolding escape_path to_hex
escape_path-Avoids mark [] m e h = tt
escape_path-Avoids mark (c ∷ cs) m e h = elim (Bool-cases (is_escaped c)) [
  | inl b ↦ rw b (
    ground (arith, m),
    (
      hex_char-mark mark (c / 16) m (omega (arith, e.0.byte)),
      (hex_char-mark mark (c % 16) m (omega arith), escape_path-Avoids mark cs m e.1 h.1),
    ),
  )
  | inr b ↦ rw b (h.0, escape_path-Avoids mark cs m e.1 h.1)
]

loop-key :
    (key xs rest : Bytes)
    → Avoids b'=' xs
    → form_loop true key [] (xs ++ b'=' ∷ rest) ≡ form_loop false (key ++ xs) [] rest
unfolding form_loop
loop-key key [] rest h = rw append-nil
loop-key key (c ∷ cs) rest h = rw (h.0, loop-key (key ++ c ∷ []) cs rest h.1, append_assoc)

loop-value :
    (key value xs rest : Bytes)
    → Avoids b'&' xs
    → form_loop false key value (xs ++ b'&' ∷ rest)
      ≡ unescape_field key (value ++ xs) ∷ form_loop true [] [] rest
unfolding form_loop
loop-value key value [] rest h = rw append-nil
loop-value key value (c ∷ cs) rest h =
    rw (h.0, loop-value key (value ++ c ∷ []) cs rest h.1, append_assoc)

loop-end :
    (key value xs : Bytes)
    → Avoids b'&' xs
    → form_loop false key value xs ≡ unescape_field key (value ++ xs) ∷ []
unfolding form_loop
loop-end key value [] h = rw append-nil
loop-end key value (c ∷ cs) h = rw (h.0, loop-end key (value ++ c ∷ []) cs h.1, append_assoc)

pub record IsField (field : Bytes × Bytes) : Type 0 where
  pub key_bytes : All IsEscapable field.0
  pub key_clear : Avoids b'=' field.0
  pub value_bytes : All IsEscapable field.1
  pub value_clear : Avoids b'&' field.1

abbrev pub form_text : List (Bytes × Bytes) → Bytes
form_text [] = []
form_text ((key, value) ∷ []) = escape_path key ++ b'=' ∷ escape_path value
form_text ((key, value) ∷ f ∷ fs) =
    escape_path key ++ b'=' ∷ (escape_path value ++ b'&' ∷ form_text (f ∷ fs))

unescape_field-escape :
    (key value : Bytes)
    → IsField (key, value)
    → unescape_field (escape_path key) (escape_path value) ≡ (key, value)
unescape_field-escape key value h =
    rw (unescape_path-escape_path key h.key_bytes, unescape_path-escape_path value h.value_bytes)

loop-fields :
    (fields : List (Bytes × Bytes))
    → All IsField fields
    → parse_form_string (form_text fields) ≡ fields
unfolding form_loop
loop-fields [] h = refl
loop-fields ((key, value) ∷ []) (h, _) =
    loop-key [] (escape_path key) _ (escape_path-Avoids b'=' key refl h.key_bytes h.key_clear)
    ∙ loop-end (escape_path key) [] (escape_path value)
        (escape_path-Avoids b'&' value refl h.value_bytes h.value_clear)
    ∙ ap (λ f. f ∷ []) (unescape_field-escape key value h)
loop-fields ((key, value) ∷ f ∷ fs) (h, hs) =
    loop-key [] (escape_path key) _ (escape_path-Avoids b'=' key refl h.key_bytes h.key_clear)
    ∙ loop-value (escape_path key) [] (escape_path value) (form_text (f ∷ fs))
        (escape_path-Avoids b'&' value refl h.value_bytes h.value_clear)
    ∙ rw (unescape_field-escape key value h, loop-fields (f ∷ fs) hs)

-- The fields of a form that were escaped by `escape_path` and joined are read back, when the
-- content type names no boundary, no key has a `=`, no value has a `&`, and all of their characters
-- are ones that `unescape_path` gives back.
pub http_form-form_text :
    (boundary_of name_of : Bytes → Option Bytes) (content_type : Bytes)
    (fields : List (Bytes × Bytes))
    → boundary_of content_type ≡ none
    → All IsField fields
    → http_form boundary_of name_of (form_text fields) content_type ≡ ok fields
unfolding http_form
http_form-form_text boundary_of name_of content_type fields h k = rw (h, loop-fields fields k)
