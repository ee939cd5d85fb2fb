-- ===== src/Register/History.antt =====
-- src/register_moudle.cpp: any number of registrations that overlap. Each is begun by its message,
-- and each post of `async_send_csr` runs its handler at any later time, with other registrations
-- and other posts in between; what is sent is left out.
use mathlib.Core.Path.{subst}
use avrouter.Prelude.{
  ℕ, zero, suc, ◌≡◌, ◌≢◌, refl, sym, ap, ◌∙◌, false, Bool-cases, Option-cases, Run-cases, ◌⊎◌, inl,
  inr, List, [], ◌∷◌, ◌++◌, All, All-append, get_elem?, Option, none, some, Bytes, codes, equal,
  equal_iff, ◌==◌, Run, ok, fault, null_pointer, ◌>>=◌, arith,
}
use avrouter.Prelude.Decimal.{decimal_from}
use avrouter.Database.{
  Soci, availability_check, delete_user, update_user_cert, changed, pg_escape_bytea,
}
use avrouter.Register.{
  name_taken, UserRegister, CsrCheck, CsrRequest, Handled, csr_sent, Begun, begin_register,
  register_valid, register_read, check_name,
}
use avrouter.Register.Outcome.{IsUp, IsSigned, begin-free, begin-taken}
use avrouter.Register.Httpd.{answer_json}

-- A message arrives, or the handler of the request with this number is run with a code and a
-- certificate.
pub data Event : Type 0 where
  begin : Option UserRegister → Event
  post : ℕ → ℕ × Bytes → Event

-- The table, and the requests that were made, the oldest first.
pub record State (soci : Soci) : Type 0 where
  pub table : soci.Table
  pub requests : List CsrRequest

abbrev to_list : Option CsrRequest → List CsrRequest
to_list none = []
to_list (some r) = r ∷ []

-- What a run comes to: this is so for its result, or it has read from a null pointer.
abbrev Ends : {A : Type 0} → (A → Type 0) → Run A → Type 0
Ends P (ok x) = P x
Ends P (fault why) = why ≡ null_pointer

then_Ends :
    {A B : Type 0} (P : A → Type 0) (Q : B → Type 0) (m : Run A) (next : A → Run B)
    → Ends P m
    → ((x : A) → P x → Ends Q (next x))
    → Ends Q (m >>= next)
then_Ends P Q (ok x) next h later = later x h
then_Ends P Q (fault why) next h later = h

by_Ends : {A : Type 0} (P : A → Type 0) {m m' : Run A} → m ≡ m' → Ends P m' → Ends P m
by_Ends P e h = subst (Ends P) (sym e) h

module _ (soci : Soci) (check : CsrCheck) where
  -- The handler of a request that was made; a number that no request has is none.
  unfoldable pub handle_post : Option CsrRequest → ℕ × Bytes → State soci → Run (State soci)
  handle_post none p s = ok s
  handle_post (some r) p s =
      (csr_sent soci r.user_name p s.table >>= λ handled. ok (record s { table = handled.table }))

  unfoldable pub step : Event → State soci → Run (State soci)
  step (begin msg) s =
      (begin_register soci check msg s.table >>= λ begun.
      ok (record { table = begun.table; requests = s.requests ++ to_list begun.request }))
  step (post i p) s = handle_post (get_elem? s.requests i) p s

  unfoldable pub run : List Event → State soci → Run (State soci)
  run [] s = ok s
  run (e ∷ es) s = step e s >>= run es

module _ (soci : Soci) (up : IsUp soci) (check : CsrCheck) (u : Bytes) (x : Option Bytes) where
  abbrev IsOther : CsrRequest → Type 0
  IsOther r = r.user_name ≢ u

  abbrev HasUser : soci.Table → Type 0
  HasUser t = up.view t u ≡ some x

  abbrev Keeps : State soci → Type 0
  Keeps s = HasUser s.table × All IsOther s.requests

  abbrev KeepsBegun : Begun soci → Type 0
  KeepsBegun begun = HasUser begun.table × All IsOther (to_list begun.request)

  read-Ends :
      (m : UserRegister) (t : soci.Table) (req : check.Req) (key : check.Key)
      → m.user_name ≢ []
      → check.d2i_req m.csr ≡ some req
      → check.d2i_key m.rsa_pubkey ≡ some key
      → HasUser t
      → Ends KeepsBegun (begin_register soci check (some m) t)
  unfolding begin_register register_valid register_read
  read-Ends m t req key name reads_req reads_key h =
      let named : equal m.user_name [] ≡ false = ground (arith, equal_iff m.user_name [], name) in
      elim (Bool-cases (check.verifies req key)) [
        | inr e ↦ rw (named, register_valid, reads_req, reads_key, register_read, e) (h, tt)
        | inl e ↦
            let signed : IsSigned check m = record {
              req = req;
              key = key;
              reads_req = reads_req;
              reads_key = reads_key;
              verified = e;
            } in
            elim (Option-cases (up.view t m.user_name)) [
              | inr taken ↦
                  by_Ends KeepsBegun (begin-taken soci up check m t signed name taken.0 taken.1)
                    (h, tt)
              | inl free ↦
                  let (t1, begun, users) = begin-free soci up check m t signed name free in
                  let differs : m.user_name ≢ u = λ same. cc in
                  let other : equal m.user_name u ≡ false =
                    ground (arith, equal_iff m.user_name u, differs) in
                  by_Ends KeepsBegun begun (users u ∙ rw other h, (differs, tt))
            ]
      ]

  begin-Ends :
      (msg : Option UserRegister) (t : soci.Table)
      → HasUser t
      → Ends KeepsBegun (begin_register soci check msg t)
  unfolding begin_register register_valid
  begin-Ends none t h = (h, tt)
  begin-Ends (some m) t h = elim (Bool-cases (equal m.user_name [])) [
    | inl e ↦ rw e (h, tt)
    | inr named ↦
        let name : m.user_name ≢ [] = ground (arith, named, equal_iff m.user_name []) in
        elim (Option-cases (check.d2i_req m.csr)) [
          | inl no_req ↦ rw (named, register_valid, no_req) refl
          | inr req ↦ elim (Option-cases (check.d2i_key m.rsa_pubkey)) [
            | inl no_key ↦ rw (named, register_valid, req.1, no_key) refl
            | inr key ↦ read-Ends m t req.0 key.0 name req.1 key.1 h
          ]
        ]
  ]

  post-Ends :
      (name : Bytes) (p : ℕ × Bytes) (t : soci.Table)
      → name ≢ u
      → HasUser t
      → Ends (λ (handled : Handled soci). HasUser handled.table) (csr_sent soci name p t)
  unfolding csr_sent delete_user update_user_cert changed
  post-Ends name (code, cert) t differs h =
      let other : equal name u ≡ false = ground (arith, equal_iff name u, differs) in
      let (updated, e, users) = up.updates t name (pg_escape_bytea soci cert) in
      let (deleted, d, left) = up.deletes t name in
      elim (Bool-cases (code == 0)) [
        | inl z ↦ rw (z, up.opened t, e) (users u ∙ rw other h)
        | inr nz ↦ elim (Bool-cases (code == 1)) [
          | inl one ↦ rw (nz, one) h
          | inr more ↦ rw (nz, more, d) (left u ∙ rw other h)
        ]
      ]

  All-get_elem? :
      (rs : List CsrRequest) (i : ℕ) (p : ℕ × Bytes) (s : State soci)
      → All IsOther rs
      → Keeps s
      → Ends Keeps (handle_post soci check (get_elem? rs i) p s)
  unfolding handle_post
  All-get_elem? [] i p s all h = h
  All-get_elem? (r ∷ rs) zero p s all h =
      then_Ends (λ (handled : Handled soci). HasUser handled.table) Keeps
        (csr_sent soci r.user_name p s.table) _ (post-Ends r.user_name p s.table all.0 h.0)
        (λ handled there. (there, h.1))
  All-get_elem? (r ∷ rs) (suc i) p s all h = All-get_elem? rs i p s all.1 h

  step-Ends : (e : Event) (s : State soci) → Keeps s → Ends Keeps (step soci check e s)
  unfolding step
  step-Ends (begin msg) s h =
      then_Ends KeepsBegun Keeps (begin_register soci check msg s.table) _
        (begin-Ends msg s.table h.0)
        (λ begun kept. (kept.0, All-append IsOther s.requests _ h.1 kept.1))
  step-Ends (post i p) s h = All-get_elem? s.requests i p s h.1 h

  run-Ends : (es : List Event) (s : State soci) → Keeps s → Ends Keeps (run soci check es s)
  unfolding run
  run-Ends [] s h = h
  run-Ends (e ∷ es) s h =
      then_Ends Keeps Keeps (step soci check e s) (run soci check es) (step-Ends e s h)
        (λ s' kept. run-Ends es s' kept)

-- With the database up, a user that is in the table, and for whose name no request is under way,
-- stays there with the same certificate, or without one, whatever registrations anybody begins,
-- also for that name, and in whatever order and however often the handlers of their requests are
-- run, each with any code: and after them each check of the name says that it is taken, by message
-- and over HTTP. The only fault on the way is that of a request or a key that OpenSSL does not
-- read.
pub run-keeps :
    (soci : Soci) (up : IsUp soci) (check : CsrCheck) (es : List Event) (s : State soci) (u : Bytes)
    (x : Option Bytes)
    → u ≢ []
    → up.view s.table u ≡ some x
    → All (λ (r : CsrRequest). r.user_name ≢ u) s.requests
    → ((s' : State soci) × (run soci check es s ≡ ok s')
        × (up.view s'.table u ≡ some x)
        × (check_name soci (some u) s'.table ≡ name_taken ∷ [])
        × (answer_json (availability_check soci u s'.table) ≡ codes "{\"code\" : \"0\"}"))
      ⊎ (run soci check es s ≡ fault null_pointer)
unfolding check_name availability_check answer_json decimal_from
run-keeps soci up check es s [] x ne h others = absurd (ne refl)
run-keeps soci up check es s (c ∷ cs) x ne h others =
    let ends = run-Ends soci up check (c ∷ cs) x es s (h, others) in
    elim (Run-cases (run soci check es s)) [
      | inl e ↦
          let there = subst (Ends (Keeps soci up check (c ∷ cs) x)) e.1 ends in
          let row = up.select_some e.0.table (c ∷ cs) x there.0 in
          inl (e.0, e.1, there.0, rw row, rw row)
      | inr e ↦
          let why = subst (Ends (Keeps soci up check (c ∷ cs) x)) e.1 ends in
          inr (e.1 ∙ ap fault why)
    ]
