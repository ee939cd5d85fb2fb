-- ===== src/Http/Form/Multipart.antt =====
-- Multipart forms as text, and that they are read back.
use avrouter.Prelude.{
  ℕ, zero, suc, ◌+◌, ◌-◌, ◌%◌, ◌≤◌, ◌<◌, ◌≡◌, refl, sym, ap, ◌∙◌, false, List, [], ◌∷◌, ◌++◌,
  append_assoc, Option, some, Bytes, codes, map, length, take, drop, length-append, take_prefix,
  drop_prefix, drop-drop, take_all, All, ltb, ok, ◌>>=◌, arith, length-drop,
}
use avrouter.Escape.Path.{escape_path}
use avrouter.Escape.Path.RoundTrip.{IsEscapable, unescape_path-escape_path}
use avrouter.Http.Form.{
  size_mod, npos, find_text, find_from, split_from, split_parts, extract, parse_multipart,
  http_form,
}
use avrouter.Http.Form.Find.{find_text-append}
use avrouter.Http.Form.Split.{split-some, split-none, extract-long, behind, head_of, value_of, cut}

-- The headers of a part, the name in them, and the value.
pub record Part : Type 0 where
  pub head : Bytes
  pub name : Bytes
  pub value : Bytes

abbrev pub blank_line : Bytes
blank_line = codes "\r\n\r\n"

abbrev pub part_text : Part → Bytes
part_text p = p.head ++ (blank_line ++ p.value)

-- Behind a boundary.
abbrev pub after_boundary : Bytes → List Part → Bytes
after_boundary boundary [] = codes "--\r\n"
after_boundary boundary (p ∷ ps) =
    codes "\r\n" ++ (part_text p ++ (codes "\r\n" ++ (boundary ++ after_boundary boundary ps)))

abbrev pub multipart_text : Bytes → List Part → Bytes
multipart_text boundary ps = boundary ++ after_boundary boundary ps

-- No empty line stands in the headers, the boundary does not come before the end, and the name is
-- found.
pub record IsPart (name_of : Bytes → Option Bytes) (boundary : Bytes) (p : Part) : Type 0 where
  pub head_ends : find_text blank_line (p.head ++ blank_line) ≡ some (length p.head)
  pub part_ends :
      find_text boundary (part_text p ++ (codes "\r\n" ++ boundary))
      ≡ some (length (part_text p) + 2)
  pub has_name : name_of p.head ≡ some (escape_path p.name)
  pub name_bytes : All IsEscapable p.name

module _ (bare : Bytes) where
  abbrev mark : Bytes
  mark = codes "--" ++ bare

  two_more : (ps : List Part) → 2 ≤ length (after_boundary mark ps)
  two_more [] = omega arith
  two_more (p ∷ ps) = omega arith

  module _ (formdata : Bytes) (short : length formdata < size_mod) where
    found-part :
        (pos : ℕ) (part rest : Bytes)
        → pos ≤ length formdata
        → drop pos formdata ≡ part ++ (codes "\r\n" ++ (mark ++ rest))
        → find_text mark (part ++ (codes "\r\n" ++ mark)) ≡ some (length part + 2)
        → find_from mark pos formdata ≡ some (pos + (length part + 2))
    found-part pos part rest h e f =
        let inside : ltb (length formdata) pos ≡ false = ground (arith, h) in
        let joined : drop pos formdata ≡ (part ++ (codes "\r\n" ++ mark)) ++ rest =
          e ∙ sym (append_assoc part (codes "\r\n" ++ mark) rest) in
        rw (inside, joined, find_text-append mark (part ++ (codes "\r\n" ++ mark)) rest _ f)

    cut-part :
        (pos : ℕ) (part rest : Bytes)
        → drop pos formdata ≡ part ++ rest
        → cut mark formdata pos (pos + (length part + 2)) ≡ part
    cut-part pos part rest e =
        let total = length-append part rest in
        let left = length-drop pos formdata in
        let same : length (drop pos formdata) ≡ length (part ++ rest) = ap length e in
        let count : (pos + (length part + 2) - pos + size_mod - 2) % size_mod ≡ length part =
          omega (arith, total, left, same) in
        rw (count, e, take_prefix part rest (length part) refl)

    next-part :
        (pos : ℕ) (part rest : Bytes)
        → drop pos formdata ≡ part ++ (codes "\r\n" ++ (mark ++ rest))
        → drop (pos + (length part + 2) + length mark + 2) formdata ≡ drop 2 rest
    next-part pos part rest e =
        let front = part ++ (codes "\r\n" ++ mark) in
        let size : length front ≡ length part + 2 + length mark =
          omega (arith, length-append part (codes "\r\n" ++ mark)) in
        let joined : drop pos formdata ≡ front ++ rest =
          e ∙ sym (append_assoc part (codes "\r\n" ++ mark) rest) in
        let sum : pos + (length part + 2) + length mark + 2 ≡ pos + (length front + 2) =
          omega (arith, size) in
        ap (λ n. drop n formdata) sum
        ∙ drop-drop pos (length front + 2) formdata
        ∙ ap (drop (length front + 2)) joined
        ∙ drop-drop (length front) 2 (front ++ rest)
        ∙ ap (drop 2) (drop_prefix front rest (length front) refl)

    next-inside :
        (pos : ℕ) (part rest : Bytes)
        → pos ≤ length formdata
        → drop pos formdata ≡ part ++ (codes "\r\n" ++ (mark ++ rest))
        → 2 ≤ length rest
        → pos + (length part + 2) + length mark + 2 ≤ length formdata
    next-inside pos part rest h e two =
        let same = ap length e in
        omega (
          arith,
          same,
          length-drop pos formdata,
          length-append part (codes "\r\n" ++ (mark ++ rest)),
          length-append mark rest,
        )

    split-text :
        (name_of : Bytes → Option Bytes) (fuel pos : ℕ) (ps : List Part)
        → length ps < fuel
        → pos ≤ length formdata
        → drop pos formdata ≡ drop 2 (after_boundary mark ps)
        → All (IsPart name_of mark) ps
        → split_from fuel mark formdata pos ≡ ok (map part_text ps)
    unfolding find_text
    split-text name_of zero pos ps f h e v = absurd (omega arith)
    split-text name_of (suc fuel) pos [] f h e v =
        let inside : ltb (length formdata) pos ≡ false = ground (arith, h) in
        split-none mark formdata fuel pos (rw (inside, e))
    split-text name_of (suc fuel) pos (p ∷ ps) f h e (v, vs) =
        let part = part_text p in
        let rest = after_boundary mark ps in
        let start = pos + (length part + 2) in
        let later =
          split-text name_of fuel (start + length mark + 2) ps (omega arith)
            (next-inside pos part rest h e (two_more ps)) (next-part pos part rest e) vs in
        split-some mark formdata fuel pos start (found-part pos part rest h e v.part_ends)
        ∙ rw (later, cut-part pos part (codes "\r\n" ++ (mark ++ rest)) e)

abbrev pub fields_of : List Part → List (Bytes × Bytes)
fields_of [] = []
fields_of (p ∷ ps) = (p.name, p.value) ∷ fields_of ps

module _ (name_of : Bytes → Option Bytes) (mark : Bytes) where
  extract-part :
      (p : Part) (ps : List Bytes)
      → length (part_text p) ≤ npos
      → IsPart name_of mark p
      → extract name_of (part_text p ∷ ps)
        ≡ (extract name_of ps >>= λ fields. ok ((p.name, p.value) ∷ fields))
  extract-part p ps n h =
      let at : find_text blank_line (part_text p) ≡ some (length p.head) =
        ap (find_text blank_line) (sym (append_assoc p.head blank_line p.value))
        ∙ find_text-append blank_line (p.head ++ blank_line) p.value (length p.head) h.head_ends in
      let size : length (part_text p) ≡ length p.head + (4 + length p.value) =
        omega (arith, length-append p.head (blank_line ++ p.value)) in
      let after : behind (part_text p) ≡ length p.head + 4 = rw at (omega (arith, size, n)) in
      let head : head_of (part_text p) ≡ p.head =
        rw at (take_prefix p.head (blank_line ++ p.value) (length p.head) refl) in
      let value : value_of (part_text p) ≡ p.value =
        ap (λ n. take npos (drop n (part_text p))) after
        ∙ ap (take npos) (
            drop-drop (length p.head) 4 (part_text p)
            ∙ ap (drop 4) (drop_prefix p.head (blank_line ++ p.value) (length p.head) refl))
        ∙ take_all npos p.value (omega (arith, size, n)) in
      extract-long name_of (part_text p) ps (omega (arith, after, size))
      ∙ rw (head, value, h.has_name, unescape_path-escape_path p.name h.name_bytes)

  after-cons :
      (p : Part) (ps : List Part)
      → length (after_boundary mark (p ∷ ps))
        ≡ 4 + length (part_text p) + length mark + length (after_boundary mark ps)
  after-cons p ps = omega (
    arith,
    length-append (part_text p) (codes "\r\n" ++ (mark ++ after_boundary mark ps)),
    length-append mark (after_boundary mark ps),
  )

  parts-few : (ps : List Part) → length ps ≤ length (after_boundary mark ps)
  parts-few [] = omega arith
  parts-few (p ∷ ps) = omega (arith, after-cons p ps, parts-few ps)

  extract-parts :
      (ps : List Part)
      → length (after_boundary mark ps) ≤ npos
      → All (IsPart name_of mark) ps
      → extract name_of (map part_text ps) ≡ ok (fields_of ps)
  unfolding extract
  extract-parts [] n h = refl
  extract-parts (p ∷ ps) n (h, hs) =
      let size = after-cons p ps in
      extract-part p (map part_text ps) (omega (arith, n, size)) h
      ∙ rw (extract-parts ps (omega (arith, n, size)) hs)

-- The parts of a multipart form, joined by the boundary that the content type names, are read back
-- as their names and values, when the form is shorter than 2 ^ 64 bytes, in no part the boundary
-- comes before the end or an empty line in the headers, and each name was escaped by `escape_path`.
pub http_form-multipart_text :
    (boundary_of name_of : Bytes → Option Bytes) (content_type bare : Bytes) (ps : List Part)
    → boundary_of content_type ≡ some bare
    → length (multipart_text (codes "--" ++ bare) ps) < size_mod
    → All (IsPart name_of (codes "--" ++ bare)) ps
    → http_form boundary_of name_of (multipart_text (codes "--" ++ bare) ps) content_type
      ≡ ok (fields_of ps)
unfolding http_form parse_multipart
http_form-multipart_text boundary_of name_of content_type bare ps h n v =
    let mark = codes "--" ++ bare in
    let text = multipart_text mark ps in
    let after = after_boundary mark ps in
    let size : length text ≡ length mark + length after = length-append mark after in
    let parts : split_parts text mark ≡ ok (map part_text ps) =
      split-text bare text n name_of (suc (length text)) (length mark + 2) ps
        (omega (arith, size, parts-few name_of mark ps)) (omega (arith, size, two_more bare ps))
        (drop-drop (length mark) 2 text ∙ ap (drop 2) (drop_prefix mark after (length mark) refl))
        v in
    rw (h, parts, extract-parts name_of mark ps (omega (arith, size, n)) v)
