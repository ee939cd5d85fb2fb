-- ===== src/Http/Form.antt =====
-- `struct http_form` (include/http_helper.hpp): the fields of a form in the body of a request. The
-- matches of its two regular expressions are parameters.
pub mod RoundTrip
pub mod Find
pub mod Split
pub mod Multipart
use avrouter.Prelude.{
  ℕ, zero, suc, ◌+◌, ◌-◌, ◌%◌, ◌^◌, Bool, true, false, ◌&&◌, List, [], ◌∷◌, ◌++◌, Option, none,
  some, Bytes, codes, equal, length, take, drop, if◌then◌else◌, ltb, ◌==◌, Run, fault, ok, ◌>>=◌,
  out_of_range,
}
use avrouter.Escape.Path.{unescape_path}

abbrev pub size_mod : ℕ
size_mod = 2 ^ 64

-- `std::string::npos`.
abbrev pub npos : ℕ
npos = size_mod - 1

abbrev pub starts_with : Bytes → Bytes → Bool
starts_with [] text = true
starts_with (c ∷ cs) [] = false
starts_with (c ∷ cs) (d ∷ ds) = c == d && starts_with cs ds

abbrev pub step_back : Option ℕ → Option ℕ
step_back none = none
step_back (some i) = some (suc i)

-- `std::string::find`; `none` is npos.
unfoldable pub find_text : Bytes → Bytes → Option ℕ
find_text wanted [] = if starts_with wanted [] then some 0 else none
find_text wanted (c ∷ cs) =
    if starts_with wanted (c ∷ cs) then some 0 else step_back (find_text wanted cs)

abbrev pub ahead : ℕ → Option ℕ → Option ℕ
ahead pos none = none
ahead pos (some i) = some (pos + i)

-- `find` from a position on.
abbrev pub find_from : Bytes → ℕ → Bytes → Option ℕ
find_from wanted pos text =
    if ltb (length text) pos then none else ahead pos (find_text wanted (drop pos text))

abbrev pub position : Option ℕ → ℕ
position none = npos
position (some i) = i

-- `substr`.
unfoldable pub substr : ℕ → ℕ → Bytes → Run Bytes
substr pos count text =
    if ltb (length text) pos then fault out_of_range else ok (take count (drop pos text))

-- The text before a boundary that was found, and the parts behind it.
abbrev pub grow_parts : Bytes → Bytes → ℕ → Option ℕ → (ℕ → Run (List Bytes)) → Run (List Bytes)
grow_parts boundary formdata pos none again = ok []
grow_parts boundary formdata pos (some start) again =
    substr pos ((start - pos + size_mod - 2) % size_mod) formdata >>= λ part.
    again (start + length boundary + 2) >>= λ parts. ok (part ∷ parts)

-- The loop that splits the text, on fuel.
unfoldable pub split_from : ℕ → Bytes → Bytes → ℕ → Run (List Bytes)
split_from zero boundary formdata pos = ok []
split_from (suc fuel) boundary formdata pos =
    grow_parts boundary formdata pos (find_from boundary pos formdata)
      (split_from fuel boundary formdata)

abbrev pub split_parts : Bytes → Bytes → Run (List Bytes)
split_parts formdata boundary =
    split_from (suc (length formdata)) boundary formdata (length boundary + 2)

-- A key and a value, each as far as it can be unescaped.
abbrev pub unescape_field : Bytes → Bytes → Bytes × Bytes
unescape_field key value = ((unescape_path key).1, (unescape_path value).1)

-- The loop of `parse_form_string`: whether a key is being read, the key, the value, and what is
-- left of the text.
unfoldable pub form_loop : Bool → Bytes → Bytes → Bytes → List (Bytes × Bytes)
form_loop true key value [] = []
form_loop false key value [] = unescape_field key value ∷ []
form_loop true key value (c ∷ cs) =
    let more = form_loop true (key ++ c ∷ []) value cs in
    if c == b'=' then form_loop false key value cs else more
form_loop false key value (c ∷ cs) =
    let more = form_loop false key (value ++ c ∷ []) cs in
    if c == b'&' then unescape_field key value ∷ form_loop true [] [] cs else more

abbrev pub parse_form_string : Bytes → List (Bytes × Bytes)
parse_form_string formdata = form_loop true [] [] formdata

-- `operator[]`.
unfoldable pub form_value : Bytes → List (Bytes × Bytes) → Bytes
form_value key [] = []
form_value key ((name, value) ∷ hs) = if equal name key then value else form_value key hs

abbrev pub named : Option Bytes → Bytes → List (Bytes × Bytes) → List (Bytes × Bytes)
named none value fields = fields
named (some key) value fields = ((unescape_path key).1, value) ∷ fields

-- With what the regular expression `Content-Disposition: form-data; name="([^"]+)"` matches in the
-- headers of a part.
module _ (name_of : Bytes → Option Bytes) where
  unfoldable pub extract : List Bytes → Run (List (Bytes × Bytes))
  extract [] = ok []
  extract (part ∷ parts) =
      let pos = position (find_text (codes "\r\n\r\n") part) in
      substr 0 pos part >>= λ head. substr ((pos + 4) % size_mod) npos part >>= λ value.
      extract parts >>= λ fields. ok (named (name_of head) value fields)

  unfoldable pub parse_multipart : Bytes → Bytes → Run (List (Bytes × Bytes))
  parse_multipart formdata boundary = split_parts formdata boundary >>= extract

  abbrev form_of : Bytes → Option Bytes → Run (List (Bytes × Bytes))
  form_of formdata none = ok (parse_form_string formdata)
  form_of formdata (some boundary) = parse_multipart formdata (codes "--" ++ boundary)

-- And with what `boundary=([^ ]+)` matches in a content type.
unfoldable pub http_form :
    (Bytes → Option Bytes) → (Bytes → Option Bytes) → Bytes → Bytes → Run (List (Bytes × Bytes))
http_form boundary_of name_of formdata content_type =
    form_of name_of formdata (boundary_of content_type)
