-- ===== src/Tests/HttpForm.antt =====
-- Forms of both kinds.
use avrouter.Prelude.{
  ℕ, ◌+◌, ◌<◌, ◌≡◌, refl, List, [], ◌∷◌, Option, none, some, Bytes, codes, length, ok, fault,
  out_of_range, arith,
}
use avrouter.Escape.Path.{is_char, is_tspecial, escape_path, is_plain}
use avrouter.Escape.Path.RoundTrip.{IsEscapable}
use avrouter.Http.Form.{
  find_text, substr, split_from, split_parts, extract, parse_multipart, http_form,
}
use avrouter.Http.Form.RoundTrip.{IsField, form_text, http_form-form_text}
use avrouter.Http.Form.Split.{Outcome, split_parts-ends, parse_multipart-Outcome}
use avrouter.Http.Form.Multipart.{Part, IsPart, multipart_text, fields_of, http_form-multipart_text}

abbrev pub no_match : Bytes → Option Bytes
no_match text = none

abbrev b_matches : Bytes → Option Bytes
b_matches text = some (codes "b")

abbrev pub user_field : Bytes × Bytes
user_field = (codes "username", codes "a")

escapable : (c : ℕ) → b'a' < c + 1 → c < b'z' → IsEscapable c
unfolding is_char is_tspecial is_plain
escapable c h k = record { byte = omega arith; covered = ground (arith, h, k) }

pub a-IsEscapable : IsEscapable b'a'
a-IsEscapable = escapable b'a' (omega arith) (omega arith)

pub user_field-IsField : IsField user_field
user_field-IsField = record {
  key_bytes = (
    escapable b'u' (omega arith) (omega arith),
    (
      escapable b's' (omega arith) (omega arith),
      (
        escapable b'e' (omega arith) (omega arith),
        (
          escapable b'r' (omega arith) (omega arith),
          (
            escapable b'n' (omega arith) (omega arith),
            (
              a-IsEscapable,
              (
                escapable b'm' (omega arith) (omega arith),
                (escapable b'e' (omega arith) (omega arith), tt),
              ),
            ),
          ),
        ),
      ),
    ),
  );
  key_clear = (refl, (refl, (refl, (refl, (refl, (refl, (refl, (refl, tt))))))));
  value_bytes = (a-IsEscapable, tt);
  value_clear = (refl, tt);
}

http_form-form_text_example :
    http_form no_match no_match (form_text (user_field ∷ user_field ∷ [])) []
    ≡ ok (user_field ∷ user_field ∷ [])
http_form-form_text_example =
    http_form-form_text no_match no_match [] (user_field ∷ user_field ∷ []) refl
      (user_field-IsField, (user_field-IsField, tt))

abbrev a_part : Part
a_part = record { head = codes "h"; name = codes "a"; value = codes "v" }

a_part-IsPart : IsPart (λ h. some (codes "a")) (codes "--b") a_part
unfolding find_text escape_path is_char is_tspecial
a_part-IsPart = record {
  head_ends = refl;
  part_ends = refl;
  has_name = refl;
  name_bytes = (a-IsEscapable, tt);
}

http_form-multipart_text_example :
    http_form b_matches
      (λ h. some (codes "a"))
      (multipart_text (codes "--b") (a_part ∷ a_part ∷ []))
      []
    ≡ ok (fields_of (a_part ∷ a_part ∷ []))
http_form-multipart_text_example =
    http_form-multipart_text b_matches (λ h. some (codes "a")) [] (codes "b") (a_part ∷ a_part ∷ [])
      refl (omega arith) (a_part-IsPart, (a_part-IsPart, tt))

-- A part of one byte.
abbrev short_form : Bytes
short_form = codes "--b\r\nx\r\n--b--\r\n"

parse_multipart-short_form : parse_multipart no_match short_form (codes "--b") ≡ fault out_of_range
unfolding parse_multipart split_from extract find_text substr
parse_multipart-short_form = refl

parse_multipart-Outcome_example :
    (parts : List Bytes) × (split_parts short_form (codes "--b") ≡ ok parts)
    × Outcome no_match parts (parse_multipart no_match short_form (codes "--b"))
parse_multipart-Outcome_example =
    parse_multipart-Outcome no_match short_form (codes "--b") (omega arith)

split_parts-ends_example :
    (parts : List Bytes) × (split_parts short_form (codes "--b") ≡ ok parts)
    × (split_from (1 + length short_form + 9) (codes "--b") short_form 5 ≡ ok parts)
split_parts-ends_example = split_parts-ends (codes "--b") short_form 9
