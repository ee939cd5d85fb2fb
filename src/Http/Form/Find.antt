-- ===== src/Http/Form/Find.antt =====
-- `find` and `substr`.
use avrouter.Prelude.{
  ℕ, ◌+◌, ◌≤◌, ◌≡◌, refl, true, Bool-cases, Option-cases, inl, inr, [], ◌∷◌, ◌++◌, some, Bytes,
  length, drop, ltb, arith,
}
use avrouter.Http.Form.{starts_with, find_text, find_from}

starts_with-append :
    (wanted text more : Bytes)
    → starts_with wanted text ≡ true
    → starts_with wanted (text ++ more) ≡ true
starts_with-append [] text more h = refl
starts_with-append (c ∷ cs) [] more h = cc
starts_with-append (c ∷ cs) (d ∷ ds) more h = ground (arith, h, starts_with-append cs ds more)

starts_with-longer :
    (wanted text more : Bytes)
    → length wanted ≤ length text
    → starts_with wanted (text ++ more) ≡ starts_with wanted text
starts_with-longer [] text more h = refl
starts_with-longer (c ∷ cs) [] more h = absurd (omega arith)
starts_with-longer (c ∷ cs) (d ∷ ds) more h = rw (starts_with-longer cs ds more (omega arith))

starts_with-fits :
    (wanted text : Bytes) → starts_with wanted text ≡ true → length wanted ≤ length text
starts_with-fits [] text h = omega arith
starts_with-fits (c ∷ cs) [] h = cc
starts_with-fits (c ∷ cs) (d ∷ ds) h =
    let rest : starts_with cs ds ≡ true = ground (arith, h) in
    omega (arith, starts_with-fits cs ds rest)

pub find_text-fits :
    (wanted text : Bytes) (i : ℕ) → find_text wanted text ≡ some i → i + length wanted ≤ length text
unfolding find_text
find_text-fits [] [] i h = ground arith
find_text-fits (w ∷ ws) [] i h = cc
find_text-fits wanted (c ∷ cs) i h = elim (Bool-cases (starts_with wanted (c ∷ cs))) [
  | inl s ↦ let fits = starts_with-fits wanted (c ∷ cs) s in ground (arith, h, s, fits)
  | inr s ↦ elim (Option-cases (find_text wanted cs)) [
    | inl e ↦ absurd (ground (arith, h, s, e))
    | inr e ↦ let fits = find_text-fits wanted cs e.0 e.1 in ground (arith, h, s, e.1, fits)
  ]
]

pub find_text-append :
    (wanted text more : Bytes) (i : ℕ)
    → find_text wanted text ≡ some i
    → find_text wanted (text ++ more) ≡ some i
unfolding find_text
find_text-append wanted [] [] i h = h
find_text-append [] [] (m ∷ more) i h = h
find_text-append (w ∷ ws) [] (m ∷ more) i h = cc
find_text-append wanted (c ∷ cs) more i h =
    let fits = find_text-fits wanted (c ∷ cs) i h in
    let same = starts_with-longer wanted (c ∷ cs) more (omega arith) in
    elim (Bool-cases (starts_with wanted (c ∷ cs))) [
      | inl s ↦ ground (arith, h, s, same)
      | inr s ↦ elim (Option-cases (find_text wanted cs)) [
        | inl e ↦ absurd (ground (arith, h, s, e))
        | inr e ↦ ground (arith, h, s, same, e.1, find_text-append wanted cs more e.0 e.1)
      ]
    ]

pub find_from-bounds :
    (wanted : Bytes) (pos : ℕ) (text : Bytes) (i : ℕ)
    → find_from wanted pos text ≡ some i
    → (pos ≤ i) × (pos ≤ length text)
find_from-bounds wanted pos text i h = elim (Bool-cases (ltb (length text) pos)) [
  | inl l ↦ absurd (ground (arith, h, l))
  | inr l ↦ elim (Option-cases (find_text wanted (drop pos text))) [
    | inl e ↦ absurd (ground (arith, h, l, e))
    | inr e ↦ ground (arith, h, l, e.1)
  ]
]
