-- ===== src/Http/Headers/RoundTrip.antt =====
-- Header lines as text, and that they are read back.
use avrouter.Prelude.{
  ℕ, ◌≡◌, ◌≢◌, ◌∙◌, refl, ap, Bool, true, false, not, ◌&&◌, ◌||◌, List, [], ◌∷◌, ◌++◌, append-nil,
  append_assoc, Bytes, All, arith, ◌==◌,
}
use avrouter.Http.Chars.{is_ctl}
use avrouter.Http.RequestParser.Parts.{AllTrue, is_text}
use avrouter.Escape.Path.{is_char, is_tspecial}
use avrouter.Http.Headers.{
  is_space, Answer, Local, first_header_line_start, header_line_start, header_name, header_value,
  push_name, add_header, flush, header_step, header_loop, parse_http_headers,
}
use avrouter.Http.Headers.Trim.{IsTrimmed, trim-IsTrimmed, trim-blank, solid-IsTrimmed}

-- What the name of a header is made of.
abbrev pub is_name_char : ℕ → Bool
is_name_char c = not (not (is_char c) || is_ctl c || is_tspecial c) && not (c == b':')

pub record IsHeader (h : Bytes × Bytes) : Type 0 where
  pub name_ne_nil : h.0 ≢ []
  pub name_chars : AllTrue is_name_char h.0
  pub value_text : AllTrue is_text h.1
  pub value_trimmed : IsTrimmed h.1

abbrev pub lines : List (Bytes × Bytes) → Bytes → Bytes
lines [] rest = b'\r' ∷ b'\n' ∷ rest
lines ((name, value) ∷ hs) rest = name ++ (b':' ∷ b' ' ∷ (value ++ (b'\r' ∷ b'\n' ∷ lines hs rest)))

-- All headers, the first one first.
abbrev pub add_all : List (Bytes × Bytes) → Answer → Answer
add_all [] a = a
add_all ((name, value) ∷ hs) a = add_all hs (add_header name value a)

module _ (a : Answer) where
  abbrev local : Bytes → Bytes → Local
  local name value = record { name = name; value = value; answer = a }

  loop-name :
      (xs acc value rest : Bytes)
      → AllTrue is_name_char xs
      → header_loop header_name (local acc value) (xs ++ rest)
        ≡ header_loop header_name (local (acc ++ xs) value) rest
  unfolding header_loop header_step
  loop-name [] acc value rest h = rw append-nil
  loop-name (c ∷ xs) acc value rest h =
      ground (arith, h.0, loop-name xs (acc ++ c ∷ []) value rest h.1, append_assoc acc (c ∷ []) xs)

  loop-value :
      (xs name acc rest : Bytes)
      → AllTrue is_text xs
      → header_loop header_value (local name acc) (xs ++ (b'\r' ∷ b'\n' ∷ rest))
        ≡ header_loop header_line_start (local name (acc ++ xs)) rest
  unfolding header_loop header_step is_ctl
  loop-value [] name acc rest h = rw append-nil
  loop-value (c ∷ xs) name acc rest h =
      ground (arith, h.0, loop-value xs name (acc ++ c ∷ []) rest h.1, append_assoc acc (c ∷ []) xs)

  colon :
      (name rest : Bytes)
      → header_loop header_name (local name []) (b':' ∷ b' ' ∷ rest)
        ≡ header_loop header_value (local name (b' ' ∷ [])) rest
  unfolding header_loop header_step is_ctl
  colon name rest = refl

  -- From the first character of a name to the start of the next line.
  loop-header :
      (c : ℕ) (name value rest : Bytes)
      → AllTrue is_name_char name
      → AllTrue is_text value
      → header_loop header_name
          (local (c ∷ []) [])
          (name ++ (b':' ∷ b' ' ∷ (value ++ (b'\r' ∷ b'\n' ∷ rest))))
        ≡ header_loop header_line_start (local (c ∷ name) (b' ' ∷ value)) rest
  loop-header c name value rest h k =
      loop-name name (c ∷ []) [] _ h
      ∙ colon (c ∷ name) _
      ∙ loop-value value (c ∷ name) (b' ' ∷ []) rest k

solid_char : (c : ℕ) → is_name_char c ≡ true → is_space c ≡ false
unfolding is_char is_ctl is_tspecial
solid_char c h = ground arith

solid_name : (name : Bytes) → AllTrue is_name_char name → All (λ c. is_space c ≡ false) name
solid_name [] h = tt
solid_name (c ∷ cs) h = (solid_char c h.0, solid_name cs h.1)

flush-header :
    (a : Answer) (name value : Bytes)
    → IsHeader (name, value)
    → flush (local a name (b' ' ∷ value)) ≡ local (add_header name value a) [] []
flush-header a name value h = rw (
  trim-IsTrimmed name (solid-IsTrimmed name (solid_name name h.name_chars)),
  trim-blank value h.value_trimmed,
)

name_start :
    (l : Local) (c : ℕ) (cs : Bytes)
    → is_name_char c ≡ true
    → header_loop header_line_start l (c ∷ cs) ≡ header_loop header_name (push_name c (flush l)) cs
unfolding header_loop header_step is_ctl is_tspecial
name_start l c cs h = ground arith

first_start :
    (l : Local) (c : ℕ) (cs : Bytes)
    → is_name_char c ≡ true
    → header_loop first_header_line_start l (c ∷ cs) ≡ header_loop header_name (push_name c l) cs
unfolding header_loop header_step is_ctl
first_start l c cs h = ground arith

-- The lines behind one whose header waits to be added.
loop-lines :
    (hs : List (Bytes × Bytes)) (a : Answer) (name value rest : Bytes)
    → IsHeader (name, value)
    → All IsHeader hs
    → header_loop header_line_start (local a name (b' ' ∷ value)) (lines hs rest)
      ≡ (true, add_all hs (add_header name value a))
unfolding header_loop header_step
loop-lines [] a name value rest h hs = ap (λ l. (true, l.answer)) (flush-header a name value h)
loop-lines (([], v) ∷ hs) a name value rest h (k, ks) = absurd (k.name_ne_nil refl)
loop-lines ((c ∷ n, v) ∷ hs) a name value rest h (k, ks) =
    name_start (local a name (b' ' ∷ value)) c _ k.name_chars.0
    ∙ ap
        (λ l.
          header_loop header_name (push_name c l)
            (n ++ (b':' ∷ b' ' ∷ (v ++ (b'\r' ∷ b'\n' ∷ lines hs rest)))))
        (flush-header a name value h)
    ∙ loop-header (add_header name value a) c n v (lines hs rest) k.name_chars.1 k.value_text
    ∙ loop-lines hs (add_header name value a) (c ∷ n) v rest k ks

-- The lines of well-formed headers are accepted, whatever comes behind them, and each header is
-- listed in its turn and checked against the four names that are looked for.
pub parse_http_headers-lines :
    (hs : List (Bytes × Bytes)) (a : Answer) (rest : Bytes)
    → All IsHeader hs
    → parse_http_headers a (lines hs rest) ≡ (true, add_all hs a)
unfolding header_loop header_step
parse_http_headers-lines [] a rest hs = refl
parse_http_headers-lines (([], v) ∷ hs) a rest (k, ks) = absurd (k.name_ne_nil refl)
parse_http_headers-lines ((c ∷ n, v) ∷ hs) a rest (k, ks) =
    first_start (local a [] []) c _ k.name_chars.0
    ∙ loop-header a c n v (lines hs rest) k.name_chars.1 k.value_text
    ∙ loop-lines hs a (c ∷ n) v rest k ks
