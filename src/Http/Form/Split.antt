-- ===== src/Http/Form/Split.antt =====
-- The loop that splits a multipart form, and the exception of `substr`.
use avrouter.Prelude.{
  ℕ, zero, suc, ◌+◌, ◌-◌, ◌%◌, ◌≤◌, ◌<◌, ◌≡◌, ◌⊎◌, refl, sym, ap, ◌∙◌, true, Bool-cases,
  Option-cases, inl, inr, List, [], ◌∷◌, Option, none, some, Bytes, codes, length, take, drop, All,
  ltb, Run, fault, ok, ◌>>=◌, out_of_range, arith, length-drop, length-take, All-map,
}
use avrouter.Http.Form.{
  size_mod, npos, find_text, find_from, position, substr, split_from, split_parts, named, extract,
  parse_multipart,
}
use avrouter.Http.Form.Find.{find_from-bounds, find_text-fits}

substr-ok :
    (pos count : ℕ) (text : Bytes)
    → pos ≤ length text
    → substr pos count text ≡ ok (take count (drop pos text))
unfolding substr
substr-ok pos count text h = ground arith

module _ (boundary formdata : Bytes) where
  abbrev found : ℕ → Option ℕ
  found pos = find_from boundary pos formdata

  abbrev pub cut : ℕ → ℕ → Bytes
  cut pos start = take ((start - pos + size_mod - 2) % size_mod) (drop pos formdata)

  length-cut : (pos start : ℕ) → length (cut pos start) ≤ length formdata
  length-cut pos start = omega (
    arith,
    length-take ((start - pos + size_mod - 2) % size_mod) (drop pos formdata),
    length-drop pos formdata,
  )

  pub split-none :
      (fuel pos : ℕ) → found pos ≡ none → split_from (suc fuel) boundary formdata pos ≡ ok []
  unfolding split_from
  split-none fuel pos h = rw h

  pub split-some :
      (fuel pos start : ℕ)
      → found pos ≡ some start
      → split_from (suc fuel) boundary formdata pos ≡ (
          split_from fuel boundary formdata (start + length boundary + 2) >>= λ parts.
          ok (cut pos start ∷ parts))
  unfolding split_from
  split-some fuel pos start h = rw (
    h,
    substr-ok pos ((start - pos + size_mod - 2) % size_mod) formdata
        (find_from-bounds boundary pos formdata start h).1,
  )

  split-past :
      (fuel pos : ℕ) → length formdata < pos → split_from fuel boundary formdata pos ≡ ok []
  unfolding split_from
  split-past zero pos h = refl
  split-past (suc fuel) pos h =
      split-none fuel pos (let far : ltb (length formdata) pos ≡ true = ground arith in rw far)

  split-more :
      (fuel extra pos : ℕ)
      → length formdata < fuel + pos
      → split_from (fuel + extra) boundary formdata pos ≡ split_from fuel boundary formdata pos
  unfolding split_from
  split-more zero extra pos h = split-past (0 + extra) pos (omega arith)
  split-more (suc fuel) extra pos h =
      let one : suc fuel + extra ≡ suc (fuel + extra) = omega arith in
      ap (λ n. split_from n boundary formdata pos) one ∙ elim (Option-cases (found pos)) [
        | inl e ↦ split-none (fuel + extra) pos e ∙ sym (split-none fuel pos e)
        | inr e ↦
            let start = e.0 in
            let later : length formdata < fuel + (start + length boundary + 2) =
              omega (arith, find_from-bounds boundary pos formdata start e.1) in
            split-some (fuel + extra) pos start e.1
            ∙ ap (λ m. m >>= λ parts. ok (cut pos start ∷ parts))
                (split-more fuel extra (start + length boundary + 2) later)
            ∙ sym (split-some fuel pos start e.1)
      ]

  -- It throws nothing, and its parts are pieces of the form.
  split-total :
      (fuel pos : ℕ)
      → (parts : List Bytes) × (split_from fuel boundary formdata pos ≡ ok parts)
        × All (λ p. length p ≤ length formdata) parts
  unfolding split_from
  split-total zero pos = ([], refl, tt)
  split-total (suc fuel) pos = elim (Option-cases (found pos)) [
    | inl e ↦ ([], split-none fuel pos e, tt)
    | inr e ↦
        let (parts, h, short) = split-total fuel (e.0 + length boundary + 2) in
        (cut pos e.0 ∷ parts, split-some fuel pos e.0 e.1 ∙ rw h, (length-cut pos e.0, short))
  ]

  -- The loop that splits a form comes to its end, with the parts and no exception, within as many
  -- turns as the form has characters and one more: further turns change nothing.
  pub split_parts-ends :
      (extra : ℕ)
      → (parts : List Bytes) × (split_parts formdata boundary ≡ ok parts)
        × (split_from (suc (length formdata) + extra) boundary formdata (length boundary + 2)
            ≡ ok parts)
  split_parts-ends extra =
      let fuel = suc (length formdata) in
      let (parts, h, short) = split-total fuel (length boundary + 2) in
      (parts, h, split-more fuel extra (length boundary + 2) (omega arith) ∙ h)

-- A part in which nothing ends its headers, and that is shorter than `npos + 4`, which is 3.
abbrev pub IsShort : Bytes → Type 0
IsShort part = (find_text (codes "\r\n\r\n") part ≡ none) × (length part < 3)

abbrev pub AnyShort : List Bytes → Type 0
AnyShort [] = ⊥
AnyShort (part ∷ parts) = IsShort part ⊎ AnyShort parts

abbrev pub behind : Bytes → ℕ
behind part = (position (find_text (codes "\r\n\r\n") part) + 4) % size_mod

IsShort-behind :
    (part : Bytes)
    → length part < npos
    → (IsShort part × (length part < behind part))
      ⊎ ((¬ IsShort part) × (behind part ≤ length part))
IsShort-behind part h = elim (Option-cases (find_text (codes "\r\n\r\n") part)) [
  | inl e ↦
      let three : behind part ≡ 3 = rw e in
      elim (Bool-cases (ltb (length part) 3)) [
        | inl s ↦ let few : length part < 3 = ground (arith, s) in inl ((e, few), omega arith)
        | inr s ↦
            let many : 3 ≤ length part = ground (arith, s) in
            inr (λ short. omega (arith, short.1), omega arith)
      ]
  | inr e ↦
      let fits = find_text-fits (codes "\r\n\r\n") part e.0 e.1 in
      let four : behind part ≡ (e.0 + 4) % size_mod = rw (e.1) in
      inr (λ short. let no : some e.0 ≡ none = sym e.1 ∙ short.0 in cc, omega (arith, fits, four))
]

substr-past :
    (pos count : ℕ) (text : Bytes) → length text < pos → substr pos count text ≡ fault out_of_range
unfolding substr
substr-past pos count text h = ground arith

-- The headers of a part, and its value.
abbrev pub head_of : Bytes → Bytes
head_of part = take (position (find_text (codes "\r\n\r\n") part)) part

abbrev pub value_of : Bytes → Bytes
value_of part = take npos (drop (behind part) part)

module _ (name_of : Bytes → Option Bytes) where
  extract-short :
      (part : Bytes) (parts : List Bytes)
      → length part < behind part
      → extract name_of (part ∷ parts) ≡ fault out_of_range
  unfolding extract
  extract-short part parts h = rw (
    substr-ok 0 (position (find_text (codes "\r\n\r\n") part)) part (omega arith),
    substr-past (behind part) npos part h,
  )

  pub extract-long :
      (part : Bytes) (parts : List Bytes)
      → behind part ≤ length part
      → extract name_of (part ∷ parts) ≡ (
          extract name_of parts >>= λ fields.
          ok (named (name_of (head_of part)) (value_of part) fields))
  unfolding extract
  extract-long part parts h = rw (
    substr-ok 0 (position (find_text (codes "\r\n\r\n") part)) part (omega arith),
    substr-ok (behind part) npos part h,
  )

  abbrev pub Outcome : List Bytes → Run (List (Bytes × Bytes)) → Type 0
  Outcome parts result =
      (AnyShort parts × (result ≡ fault out_of_range))
      ⊎ ((¬ AnyShort parts) × (fields : List (Bytes × Bytes)) × (result ≡ ok fields))

  extract-Outcome :
      (parts : List Bytes)
      → All (λ p. length p < npos) parts
      → Outcome parts (extract name_of parts)
  unfolding extract
  extract-Outcome [] h = inr (λ no. no, [], refl)
  extract-Outcome (part ∷ parts) h = elim (IsShort-behind part h.0) [
    | inl s ↦ inl (inl s.0, extract-short part parts s.1)
    | inr l ↦ elim (extract-Outcome parts h.1) [
      | inl e ↦ inl (inr e.0, extract-long part parts l.1 ∙ rw (e.1))
      | inr e ↦ inr (
        λ any. elim any [ inl s ↦ l.0 s | inr s ↦ e.0 s ],
        named (name_of (head_of part)) (value_of part) e.1,
        extract-long part parts l.1 ∙ rw (e.2),
      )
    ]
  ]

  -- A multipart form shorter than `npos` is split into parts, and either one of them is shorter
  -- than 3 bytes with no empty line in it, and then nothing but the exception `out_of_range` comes
  -- of the form, or none is, and then fields come of it.
  pub parse_multipart-Outcome :
      (formdata boundary : Bytes)
      → length formdata < npos
      → (parts : List Bytes) × (split_parts formdata boundary ≡ ok parts)
        × Outcome parts (parse_multipart name_of formdata boundary)
  unfolding parse_multipart
  parse_multipart-Outcome formdata boundary h =
      let fuel = suc (length formdata) in
      let (parts, e, short) = split-total boundary formdata fuel (length boundary + 2) in
      (
        parts,
        e,
        rw e (
            extract-Outcome parts (
              All-map (λ p. length p ≤ length formdata) (λ p. length p < npos)
                (λ p k. omega (arith, k)) parts short)),
      )
