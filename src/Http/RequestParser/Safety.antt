-- ===== src/Http/RequestParser/Safety.antt =====
-- `headers.back()` is only called where a header has been begun; the version is all that can fault.
use avrouter.Prelude.{
  ℕ, ◌≡◌, ◌≢◌, refl, List, [], ◌∷◌, some, Bytes, Run, ok, fault, int_overflow, ap, ◌⊎◌, inl, inr,
  arith,
}
use mathlib.Core.List.{concat-ne-nil}
use avrouter.Http.Request.{Header, Request}
use avrouter.Http.RequestParser.{
  State, header_line_start, header_lws, header_name, space_before_header_value, header_value,
  expecting_newline_2, Tribool, accepted, refused, indeterminate, Step, Parsed, settle, change_back,
  push_value, push_name, more, on_back, next_digit, consume, parse,
}

-- The states of a header that has been begun.
abbrev pub HasHeader : State → Request → Type 0
HasHeader header_lws r = r.headers ≢ []
HasHeader header_name r = r.headers ≢ []
HasHeader space_before_header_value r = r.headers ≢ []
HasHeader header_value r = r.headers ≢ []
HasHeader expecting_newline_2 r = r.headers ≢ []
HasHeader _ r = Unit

abbrev Safe : Run Step → Type 0
Safe (ok o) = HasHeader o.state o.request
Safe (fault f) = f ≡ int_overflow

change_back-some :
    (f : Header → Header) (hs : List Header)
    → hs ≢ []
    → (hs' : List Header) × (change_back f hs ≡ some hs') × (hs' ≢ [])
unfolding change_back
change_back-some f [] h = absurd (h refl)
change_back-some f (x ∷ []) h = (f x ∷ [], refl, λ e. cc)
change_back-some f (x ∷ y ∷ hs) h =
    let (changed, e, ne) = change_back-some f (y ∷ hs) (λ e. cc) in
    (x ∷ changed, ground arith, λ e. cc)

-- A change of the last header goes on in state `s`, and there still is a last header.
on_back-Safe :
    (s : State) (r : Request) (f : Header → Header)
    → r.headers ≢ []
    → (hs : List Header) × (on_back s r f ≡ more s (record r { headers = hs })) × (hs ≢ [])
unfolding on_back
on_back-Safe s r f h = let (hs, e, ne) = change_back-some f r.headers h in (hs, rw (e, on_back), ne)

consume-Safe : (s : State) (r : Request) (c : ℕ) → HasHeader s r → Safe (consume s r c)
unfolding consume next_digit
consume-Safe header_line_start r c h =
    ground (arith, concat-ne-nil (record { name = c ∷ []; value = [] }) r.headers)
consume-Safe header_lws r c h = ground (arith, on_back-Safe header_value r (push_value c) h)
consume-Safe header_name r c h = ground (arith, on_back-Safe header_name r (push_name c) h)
consume-Safe header_value r c h = ground (arith, on_back-Safe header_value r (push_value c) h)
consume-Safe _ r c h = ground arith

Safe-cases :
    (m : Run Step)
    → Safe m
    → ((o : Step) × (m ≡ ok o) × HasHeader o.state o.request) ⊎ (m ≡ fault int_overflow)
Safe-cases (ok o) h = inl (o, refl, h)
Safe-cases (fault f) h = inr (ap fault h)

-- The parser reads to the end of its loop, or a number of the version overflows.
abbrev pub Reads : Run Parsed → Type 0
Reads m =
    ((p : Parsed) × (m ≡ ok p) × HasHeader p.last.state p.last.request) ⊎ (m ≡ fault int_overflow)

settle-Reads :
    (t : Tribool) (o : Step) (cs : Bytes) (again : Run Parsed)
    → HasHeader o.state o.request
    → Reads again
    → Reads (settle t o cs again)
settle-Reads indeterminate o cs again h ih = ih
settle-Reads accepted o cs again h ih = inl (_, refl, h)
settle-Reads refused o cs again h ih = inl (_, refl, h)

-- `parse` reads any input to the end of its loop, or a number of the version overflows its `int`,
-- and there is no other fault: no `headers.back()` meets an empty vector, if the state is one that
-- the request fits; the initial state fits every request. The state that is left fits the request
-- that is left.
pub parse-Reads :
    (s : State) (r : Request) (input : Bytes) → HasHeader s r → Reads (parse s r input)
unfolding parse
parse-Reads s r [] h = inl (_, refl, h)
parse-Reads s r (c ∷ cs) h = elim (Safe-cases (consume s r c) (consume-Safe s r c h)) [
  | inl (o, e, kept) ↦
      rw (parse, e) (settle-Reads o.result o cs _ kept (parse-Reads o.state o.request cs kept))
  | inr e ↦ inr (rw (parse, e))
]
