-- ===== src/ConnectionManager/Sets.antt =====
-- The set of the connections as an abstract set: what the manager does, whatever the order in which
-- its set holds the pointers.
use mathlib.Core.Quot
use mathlib.Core.Quot.{Quot, Quot-set}
use mathlib.Core.Bool.{Bool-set}
use mathlib.Core.Path.{fun_ext}
use avrouter.Prelude.{
  ℕ, ◌≡◌, refl, sym, ap, ◌∙◌, Bool, Bool-cases, inl, inr, true, ◌||◌, List, [], ◌∷◌, if◌then◌else◌,
  ◌==◌, ==_iff, arith,
}
use avrouter.Connection.{Connection, new_connection, start, stop}
use avrouter.Forward.{set_infos}
use avrouter.ConnectionManager.{
  member, remove, Manager, start_connection, stop_connection, stop_each, stop_all,
}
use avrouter.ConnectionManager.Members.{
  Call, start_one, stop_one, stop_every, member-remove, step, run,
}

-- Two lists hold the same connections.
abbrev pub SameMembers : List ℕ → List ℕ → Type 0
SameMembers xs ys = (c : ℕ) → member c xs ≡ member c ys

-- A set of connections: lists, up to the order and the repetitions.
abbrev pub ConnectionSet : Type 0
ConnectionSet = Quot SameMembers

abbrev pub empty : ConnectionSet
empty = Quot.mk []

pub holds : ℕ → ConnectionSet → Bool
holds c = Quot.lift Bool-set (member c) (λ xs ys h. h c)

SameMembers-cons : (c : ℕ) (xs ys : List ℕ) → SameMembers xs ys → SameMembers (c ∷ xs) (c ∷ ys)
SameMembers-cons c xs ys h d = ap (λ m. c == d || m) (h d)

SameMembers-remove :
    (c : ℕ) (xs ys : List ℕ) → SameMembers xs ys → SameMembers (remove c xs) (remove c ys)
SameMembers-remove c xs ys h d = member-remove c d xs ∙ rw (h d) (sym (member-remove c d ys))

pub put : ℕ → ConnectionSet → ConnectionSet
put c =
    Quot.lift Quot-set (λ xs. Quot.mk (c ∷ xs)) (λ xs ys h. Quot.sound (SameMembers-cons c xs ys h))

pub take_out : ℕ → ConnectionSet → ConnectionSet
take_out c =
    Quot.lift Quot-set (λ xs. Quot.mk (remove c xs))
      (λ xs ys h. Quot.sound (SameMembers-remove c xs ys h))

-- The set and the connections.
pub record SetManager : Type 0 where
  pub set : ConnectionSet
  pub states : ℕ → Connection

abbrev pub view : Manager → SetManager
view m = record { set = Quot.mk m.connections; states = m.states }

-- What a call does to the set: `stop_all` stops those that it holds.
unfoldable pub set_step : Call → SetManager → SetManager
set_step (start_one c) m = record {
  set = put c m.set;
  states = set_infos c (start {M = Unit {0}} (m.states c)).0 m.states;
}
set_step (stop_one c) m = record {
  set = take_out c m.set;
  states = set_infos c (stop {M = Unit {0}} (m.states c)).0 m.states;
}
set_step stop_every m = record {
  set = empty;
  states = λ d. record (m.states d) { abort = holds d m.set || (m.states d).abort };
}

unfoldable pub set_run : List Call → SetManager
set_run [] = record { set = empty; states = λ c. new_connection }
set_run (call ∷ before) = set_step call (set_run before)

-- `put` in any order, and again, gives the same set.
put_comm : (c d : ℕ) (s : ConnectionSet) → put c (put d s) ≡ put d (put c s)
unfolding put
put_comm c d = Quot.ind (λ s. Quot-set _ _) (λ xs. Quot.sound (λ e. ground arith))

put_again : (c : ℕ) (s : ConnectionSet) → put c (put c s) ≡ put c s
unfolding put
put_again c = Quot.ind (λ s. Quot-set _ _) (λ xs. Quot.sound (λ e. ground arith))

-- A connection that is stopped, and then, if `b`, once more.
stopped_or :
    (c d : ℕ) (b : Bool) (states : ℕ → Connection)
    → (let s = set_infos c (record (states c) { abort = true }) states d in
        record s { abort = b || s.abort })
      ≡ record (states d) { abort = (c == d || b) || (states d).abort }
stopped_or c d b states = elim (Bool-cases (c == d)) [
  | inl e ↦
      let same : c ≡ d = ground (arith, e, ==_iff c d) in
      let always : (b || true) ≡ true = ground arith in rw (e, same, always)
  | inr e ↦ rw e
]

stop_each-states :
    (M : Type 0) (cs : List ℕ) (states : ℕ → Connection) (d : ℕ)
    → (stop_each {M = M} cs states).0 d
      ≡ record (states d) { abort = member d cs || (states d).abort }
unfolding stop_each stop
stop_each-states M [] states d = refl
stop_each-states M (c ∷ cs) states d =
    stop_each-states M cs (set_infos c (record (states c) { abort = true }) states) d
    ∙ stopped_or c d (member d cs) states

start_set :
    (c : ℕ) (cs : List ℕ)
    → (let s : ConnectionSet = Quot.mk (if member c cs then cs else c ∷ cs) in s ≡ Quot.mk (c ∷ cs))
start_set c cs = Quot.sound (λ d. ground (arith, ==_iff c d))

stop_set :
    (c : ℕ) (cs : List ℕ)
    → (let s : ConnectionSet = Quot.mk (if member c cs then remove c cs else cs) in
        s ≡ Quot.mk (remove c cs))
stop_set c cs = Quot.sound (λ d. ground (arith, ==_iff c d, member-remove c d cs))

module _ (M : Type 0) where
  step-view : (call : Call) (m : Manager) → view (step M call m) ≡ set_step call (view m)
  unfolding step set_step put take_out holds start_connection stop_connection stop_all start stop
  step-view (start_one c) m = rw (start_set c m.connections)
  step-view (stop_one c) m = rw (stop_set c m.connections)
  step-view stop_every m = rw (fun_ext (stop_each-states M m.connections m.states))

  set_run-view : (calls : List Call) → view (run M calls) ≡ set_run calls
  unfolding run set_run
  set_run-view [] = refl
  set_run-view (call ∷ before) =
      step-view call (run M before) ∙ ap (set_step call) (set_run-view before)

  -- After any calls the manager is, up to the order of its set, what the same calls make of an
  -- abstract set: `start` puts a connection into it, `stop` takes it out, `stop_all` stops those
  -- that it holds and empties it. In the abstract set two starts in a row commute, and a second
  -- start of the same connection changes nothing.
  pub run-view :
      (calls : List Call)
      → (view (run M calls) ≡ set_run calls)
        × ((c d : ℕ)
            → (view (run M (start_one c ∷ start_one d ∷ calls))).set
              ≡ (view (run M (start_one d ∷ start_one c ∷ calls))).set)
        × ((c : ℕ)
            → (view (run M (start_one c ∷ start_one c ∷ calls))).set
              ≡ (view (run M (start_one c ∷ calls))).set)
  unfolding set_run set_step
  run-view calls =
      let sets = λ (cs : List Call). ap (λ m. m.set) (set_run-view cs) in
      (
        set_run-view calls,
        λ c d.
            sets (start_one c ∷ start_one d ∷ calls)
            ∙ put_comm c d (set_run calls).set
            ∙ sym (sets (start_one d ∷ start_one c ∷ calls)),
        λ c.
            sets (start_one c ∷ start_one c ∷ calls)
            ∙ put_again c (set_run calls).set
            ∙ sym (sets (start_one c ∷ calls)),
      )
