-- ===== src/Http/RequestParser/Again.antt =====
-- A second request through the same parser, as `http_connection` reads it when the client asks for
-- keep-alive: nothing calls `reset` in between.
use avrouter.Prelude.{
  ℕ, ◌≡◌, ◌≢◌, ◌∙◌, sym, refl, [], ◌∷◌, Bytes, inl, inr, Run, Run-cases, ok, fault, arith,
}
use avrouter.Http.Request.{Request}
use avrouter.Http.RequestParser.Resume.{parse_step}
use avrouter.Http.RequestParser.{
  State, expecting_newline_3, on_back, change_back, header_lws, Tribool, accepted, refused,
  indeterminate, Step, Parsed, settle, next_digit, consume, parse,
}

abbrev Ends : Run Step → Type 0
Ends (ok o) = o.result ≡ accepted → o.state ≡ expecting_newline_3
Ends (fault f) = Unit

consume-Ends : (s : State) (r : Request) (c : ℕ) → Ends (consume s r c)
unfolding consume next_digit on_back change_back
consume-Ends header_lws r c = ground arith
consume-Ends _ r c = ground arith

settle-Ends :
    (t : Tribool) (o : Step) (cs : Bytes) (again : Run Parsed) {p : Parsed}
    → t ≡ o.result
    → (o.result ≡ accepted → o.state ≡ expecting_newline_3)
    → (again ≡ ok p → p.last.result ≡ accepted → p.last.state ≡ expecting_newline_3)
    → settle t o cs again ≡ ok p
    → p.last.result ≡ accepted
    → p.last.state ≡ expecting_newline_3
settle-Ends indeterminate o cs again e h ih k a = ih k a
settle-Ends accepted o cs again e h ih k a = ground arith
settle-Ends refused o cs again e h ih k a = ground arith

-- An accepted request leaves the parser in the state behind its last byte.
parse-Ends :
    (s : State) (r : Request) (input : Bytes) {p : Parsed}
    → parse s r input ≡ ok p
    → p.last.result ≡ accepted
    → p.last.state ≡ expecting_newline_3
unfolding parse
parse-Ends s r [] k a = ground arith
parse-Ends s r (c ∷ cs) {p} k a = elim (Run-cases (consume s r c)) [
  | inl (o, e) ↦
      settle-Ends o.result o cs (parse o.state o.request cs) {p = p} refl
        (rw e at (consume-Ends s r c)) (parse-Ends o.state o.request cs {p = p})
        (sym (parse_step s r c cs o e) ∙ k) a
  | inr (f, e) ↦ ground arith
]

-- After an accepted request the parser refuses the next one at its first byte, whatever it is but
-- a newline: the state is still the one behind the end of the first request.
pub parse_again :
    (s : State) (r : Request) (input : Bytes) (p : Parsed) (c : ℕ) (cs : Bytes)
    → parse s r input ≡ ok p
    → p.last.result ≡ accepted
    → c ≢ b'\n'
    → parse p.last.state p.last.request (c ∷ cs)
      ≡ ok (record {
        last = record { result = refused; state = expecting_newline_3; request = p.last.request };
        rest = cs;
      })
unfolding parse consume
parse_again s r input p c cs k a ne = rw (parse-Ends s r input {p = p} k a) (ground arith)
