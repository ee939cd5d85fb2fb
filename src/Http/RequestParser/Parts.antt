-- ===== src/Http/RequestParser/Parts.antt =====
-- The parts of a request, each of which keeps the parser in one state and fills one field.
use mathlib.Core.List.{foldl}
use avrouter.Prelude.{
  ℕ, Bool-cases, inl, inr, ◌≡◌, ◌∙◌, refl, Bool, true, not, ◌&&◌, List, [], ◌∷◌, ◌++◌, append_assoc,
  append-nil, some, Bytes, All, arith, ◌==◌, ◌+◌, ◌*◌, ◌<◌, ◌≤◌, int_mod,
}
use avrouter.Http.Chars.{is_token, is_ctl, is_digit, token-ne_space, token-ne_colon}
use avrouter.Http.Request.{Header, Request}
use avrouter.Http.RequestParser.{
  State, method, uri, http_version_major, http_version_minor, header_name, header_value, more,
  change_back, on_back, push_name, push_value, add_digit, next_digit, consume, parse,
}
use avrouter.Http.RequestParser.Resume.{parse_more}

abbrev pub is_uri_char : ℕ → Bool
is_uri_char c = not (is_ctl c) && not (c == b' ')

abbrev pub is_text : ℕ → Bool
is_text c = not (is_ctl c)

abbrev pub AllTrue : (ℕ → Bool) → Bytes → Type 0
AllTrue test = All (λ c. test c ≡ true)

abbrev pub all : (ℕ → Bool) → Bytes → Bool
all test [] = true
all test (c ∷ cs) = test c && all test cs

-- A literal is tested as a whole.
pub all-AllTrue : (test : ℕ → Bool) (xs : Bytes) → all test xs ≡ true → AllTrue test xs
all-AllTrue test [] h = tt
all-AllTrue test (c ∷ cs) h = elim (Bool-cases (test c)) [
  | inl e ↦ (e, all-AllTrue test cs (ground (arith, h, e)))
  | inr e ↦ absurd (ground (arith, h, e))
]

-- The number that digits spell.
abbrev pub number : Bytes → ℕ
number = foldl add_digit 0

-- A part of the text that keeps the parser in one state, and fills one field of the request.
module _ (s : State) (test : ℕ → Bool) (req : Bytes → Request)
    (step : (acc : Bytes) (c : ℕ)
      → test c ≡ true
      → consume s (req acc) c ≡ more s (req (acc ++ c ∷ []))) where
  parse-part :
      (xs acc rest : Bytes)
      → AllTrue test xs
      → parse s (req acc) (xs ++ rest) ≡ parse s (req (acc ++ xs)) rest
  parse-part [] acc rest h = rw append-nil
  parse-part (c ∷ xs) acc rest h =
      parse_more s s _ _ c (xs ++ rest) (step acc c h.0)
      ∙ parse-part xs (acc ++ c ∷ []) rest h.1
      ∙ rw append_assoc

pub foldl-add_digit : (v : ℕ) (xs : Bytes) → v ≤ foldl add_digit v xs
foldl-add_digit v [] = omega arith
foldl-add_digit v (c ∷ cs) = omega (arith, foldl-add_digit (add_digit v c) cs)

pub digit_bound : (c : ℕ) → is_digit c ≡ true → 48 ≤ c
unfolding is_digit
digit_bound c h = ground (arith, h)

-- Digits of a number, none of whose beginnings overflows.
module _ (s : State) (put : ℕ → Request)
    (step : (v c : ℕ)
      → is_digit c ≡ true
      → v * 10 + c < int_mod
      → consume s (put v) c ≡ more s (put (add_digit v c))) where
  parse_digits :
      (xs : Bytes) (v : ℕ) (rest : Bytes)
      → AllTrue is_digit xs
      → foldl add_digit v xs + b'0' < int_mod
      → parse s (put v) (xs ++ rest) ≡ parse s (put (foldl add_digit v xs)) rest
  parse_digits [] v rest h fits = refl
  parse_digits (c ∷ xs) v rest h fits =
      let grows = foldl-add_digit (add_digit v c) xs in
      let digit = digit_bound c h.0 in
      parse_more s s _ _ c (xs ++ rest) (step v c h.0 (omega (arith, fits, grows, digit)))
      ∙ parse_digits xs (add_digit v c) rest h.1 fits

change_back-concat :
    (f : Header → Header) (hs : List Header) (h : Header)
    → change_back f (hs ++ h ∷ []) ≡ some (hs ++ f h ∷ [])
unfolding change_back
change_back-concat f [] h = refl
change_back-concat f (x ∷ []) h = refl
change_back-concat f (x ∷ y ∷ hs) h = ground (arith, change_back-concat f (y ∷ hs) h)

pub on_back-last :
    (s : State) (r : Request) (hs : List Header) (h : Header) (f : Header → Header)
    → on_back s (record r { headers = hs ++ h ∷ [] }) f
      ≡ more s (record r { headers = hs ++ f h ∷ [] })
unfolding on_back
on_back-last s r hs h f = rw (change_back-concat f hs h)

module _ (r : Request) where
  abbrev pub with_header : List Header → Bytes → Bytes → Request
  with_header hs name value = record r {
    headers = hs ++ record { name = name; value = value } ∷ [];
  }

  pub parse_method :
      (xs acc rest : Bytes)
      → AllTrue is_token xs
      → parse method (record r { method = acc }) (xs ++ rest)
        ≡ parse method (record r { method = acc ++ xs }) rest
  unfolding consume
  parse_method =
      parse-part method is_token (λ acc. record r { method = acc })
        (λ acc c h. ground (arith, token-ne_space c h))

  pub parse_uri :
      (xs acc rest : Bytes)
      → AllTrue is_uri_char xs
      → parse uri (record r { uri = acc }) (xs ++ rest)
        ≡ parse uri (record r { uri = acc ++ xs }) rest
  unfolding consume
  parse_uri = parse-part uri is_uri_char (λ acc. record r { uri = acc }) (λ acc c h. ground arith)

  pub parse_major :
      (xs : Bytes) (v : ℕ) (rest : Bytes)
      → AllTrue is_digit xs
      → foldl add_digit v xs + b'0' < int_mod
      → parse http_version_major (record r { http_version_major = v }) (xs ++ rest)
        ≡ parse http_version_major (record r { http_version_major = foldl add_digit v xs }) rest
  unfolding consume next_digit is_digit
  parse_major =
      parse_digits http_version_major (λ v. record r { http_version_major = v })
        (λ v c h small. ground (arith, h, small))

  pub parse_minor :
      (xs : Bytes) (v : ℕ) (rest : Bytes)
      → AllTrue is_digit xs
      → foldl add_digit v xs + b'0' < int_mod
      → parse http_version_minor (record r { http_version_minor = v }) (xs ++ rest)
        ≡ parse http_version_minor (record r { http_version_minor = foldl add_digit v xs }) rest
  unfolding consume next_digit is_digit
  parse_minor =
      parse_digits http_version_minor (λ v. record r { http_version_minor = v })
        (λ v c h small. ground (arith, h, small))

  pub parse_name :
      (hs : List Header) (xs acc rest : Bytes)
      → AllTrue is_token xs
      → parse header_name (with_header hs acc []) (xs ++ rest)
        ≡ parse header_name (with_header hs (acc ++ xs) []) rest
  unfolding consume
  parse_name hs =
      parse-part header_name is_token (λ acc. with_header hs acc [])
        (λ acc c h. ground (
          arith,
          token-ne_colon c h,
          on_back-last header_name r hs (record { name = acc; value = [] }) (push_name c),
        ))

  pub parse_value :
      (hs : List Header) (name xs acc rest : Bytes)
      → AllTrue is_text xs
      → parse header_value (with_header hs name acc) (xs ++ rest)
        ≡ parse header_value (with_header hs name (acc ++ xs)) rest
  unfolding consume is_ctl
  parse_value hs name =
      parse-part header_value is_text (λ acc. with_header hs name acc)
        (λ acc c h. ground (
          arith,
          on_back-last header_value r hs (record { name = name; value = acc }) (push_value c),
        ))
