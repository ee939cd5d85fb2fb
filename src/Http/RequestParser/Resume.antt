-- ===== src/Http/RequestParser/Resume.antt =====
-- One round of the loop of `parse`: the parser carries its state to the next.
use avrouter.Prelude.{ℕ, ◌≡◌, ◌∷◌, Bytes, ok}
use avrouter.Http.Request.{Request}
use avrouter.Http.RequestParser.{State, Step, settle, more, consume, parse}

-- One round of the loop, and one that goes on.
pub parse_step :
    (s : State) (r : Request) (c : ℕ) (cs : Bytes) (o : Step)
    → consume s r c ≡ ok o
    → parse s r (c ∷ cs) ≡ settle o.result o cs (parse o.state o.request cs)
unfolding parse
parse_step s r c cs o e = rw (parse, e)

pub parse_more :
    (s s' : State) (r r' : Request) (c : ℕ) (cs : Bytes)
    → consume s r c ≡ more s' r'
    → parse s r (c ∷ cs) ≡ parse s' r' cs
unfolding parse
parse_more s s' r r' c cs e = rw (parse, e)
