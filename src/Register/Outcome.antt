-- ===== src/Register/Outcome.antt =====
-- What a registration comes to: the answers that the client is sent, and the table of users.

use avrouter.Prelude.{
  ℕ, zero, suc, ◌≡◌, ◌≢◌, refl, ◌∙◌, Bool, true, false, ◌||◌, List, [], ◌∷◌, ◌++◌, Option, none,
  some, Bytes, if◌then◌else◌, equal, equal_iff, equal_refl, arith, ok, take, drop, drop-nil, ◌==◌,
  Bool-cases, inl, inr,
}
use avrouter.Database.{
  Soci, pg_escape_bytea, register_user, insert_free, changed, delete_user, update_user_cert,
}
use avrouter.Register.{
  register_succeed, register_succeed_pendding_cert, register_failed_name_taken,
  register_failed_ca_down, Response, register_result, UserRegister, CaMessage, push_ok, cert_push,
  CaAnswers, contains, push_ready, poll, cert_posts, minus_one, CsrCheck, CsrRequest, csr_sent,
  csr_posts, registered, register_read, register_valid, begin_register, send_request, user_register,
}

-- What the authority makes of a request.
pub data Verdict : Type 0 where
  down pending : Verdict
  issued : Bytes → Verdict

-- Something comes to read at one of so many turns, or right after them.
abbrev pub comes : ℕ → ℕ → (ℕ → Bool) → Bool
comes zero i can_read = can_read i
comes (suc left) i can_read = can_read i || comes left (suc i) can_read

-- The fingerprint is one of these.
abbrev pub is_listed : Bytes → List Bytes → Bool
is_listed fingerprint [] = false
is_listed fingerprint (f ∷ fs) = if equal fingerprint f then true else is_listed fingerprint fs

-- The authority has taken the request with this fingerprint.
abbrev pub takes_request : Bytes → Option CaMessage → Bool
takes_request fingerprint (some (push_ok fingerprints)) = is_listed fingerprint fingerprints
takes_request fingerprint _ = false

-- A certificate for this fingerprint is issued, and one for another is none.
abbrev pub grants : Bytes → Option CaMessage → Verdict
grants fingerprint (some (cert_push f cert)) = if equal fingerprint f then issued cert else pending
grants fingerprint _ = pending

abbrev pub verdict : Bytes → CaAnswers → Verdict
verdict fingerprint ca =
    if takes_request fingerprint ca.pushed
    then (if comes 10 0 ca.can_read then grants fingerprint ca.pulled else pending)
    else down

-- The posts that a verdict stands for.
abbrev pub posts_of : Verdict → List (ℕ × Bytes)
posts_of down = (minus_one, []) ∷ []
posts_of pending = (1, []) ∷ []
posts_of (issued cert) = (0, cert) ∷ (1, []) ∷ []

pub can_read-poll :
    (left i : ℕ) (can_read : ℕ → Bool) → can_read (poll left i can_read) ≡ comes left i can_read
unfolding poll
can_read-poll zero i can_read = refl
can_read-poll (suc left) i can_read = ground (arith, can_read-poll left (suc i) can_read)

contains-is_listed :
    (fingerprint : Bytes) (fs : List Bytes) → contains fingerprint fs ≡ is_listed fingerprint fs
contains-is_listed fingerprint [] = refl
contains-is_listed fingerprint (f ∷ fs) =
    ground
      (arith, equal_iff f fingerprint, equal_iff fingerprint f, contains-is_listed fingerprint fs)

pub push_ready-takes_request :
    (fingerprint : Bytes) (pushed : Option CaMessage)
    → push_ready fingerprint pushed ≡ takes_request fingerprint pushed
unfolding push_ready
push_ready-takes_request fingerprint none = refl
push_ready-takes_request fingerprint (some (push_ok fs)) = contains-is_listed fingerprint fs
push_ready-takes_request fingerprint (some _) = refl

-- The posts for the message that was pulled, with the last one behind them.
pub cert_posts-grants :
    (fingerprint : Bytes) (pulled : Option CaMessage)
    → cert_posts fingerprint pulled ++ (1, []) ∷ [] ≡ posts_of (grants fingerprint pulled)
unfolding cert_posts
cert_posts-grants fingerprint none = refl
cert_posts-grants fingerprint (some (cert_push f cert)) = elim (Bool-cases (equal fingerprint f)) [
  | inl e ↦
      let back : equal f fingerprint ≡ true =
        ground (arith, e, equal_iff f fingerprint, equal_iff fingerprint f) in
      rw (e, back)
  | inr e ↦
      let back : equal f fingerprint ≡ false =
        ground (arith, e, equal_iff f fingerprint, equal_iff fingerprint f) in
      rw (e, back)
]
cert_posts-grants fingerprint (some _) = refl

-- What an update makes of a user: nothing of one that is not there.
abbrev pub certify : Bytes → Option (Option Bytes) → Option (Option Bytes)
certify cert none = none
certify cert (some old) = some (some cert)

-- A database that is up: what its statements do to the users, each with the certificate, if any.
pub record IsUp (soci : Soci) : Type 0 where
  pub view : soci.Table → Bytes → Option (Option Bytes)
  pub select_none : (t : soci.Table) (u : Bytes) → view t u ≡ none → soci.select t u ≡ some false
  pub select_some :
      (t : soci.Table) (u : Bytes) (x : Option Bytes)
      → view t u ≡ some x
      → soci.select t u ≡ some true
  pub inserts :
      (t : soci.Table) (u key mail phone : Bytes)
      → view t u ≡ none
      → (t' : soci.Table) × (soci.insert t u key mail phone ≡ some t')
        × ((v : Bytes) → view t' v ≡ (if equal u v then some none else view t v))
  pub deletes :
      (t : soci.Table) (u : Bytes)
      → (t' : soci.Table) × (soci.delete t u ≡ some t')
        × ((v : Bytes) → view t' v ≡ (if equal u v then none else view t v))
  pub updates :
      (t : soci.Table) (u cert : Bytes)
      → (t' : soci.Table) × (soci.update_cert t u cert ≡ some t')
        × ((v : Bytes) → view t' v ≡ (if equal u v then certify cert (view t u) else view t v))
  pub opened : (t : soci.Table) → soci.is_open t ≡ true

if_again :
    {A : Type 0} (b : Bool) (x y w : A) {z : A}
    → z ≡ (if b then y else w)
    → (if b then x else z) ≡ (if b then x else w)
if_again true x y w e = refl
if_again false x y w e = e

-- A registration whose request and key OpenSSL reads, and which is signed by its key.
pub record IsSigned (check : CsrCheck) (msg : UserRegister) : Type 0 where
  pub req : check.Req
  pub key : check.Key
  pub reads_req : check.d2i_req msg.csr ≡ some req
  pub reads_key : check.d2i_key msg.rsa_pubkey ≡ some key
  pub verified : check.verifies req key ≡ true

-- The request that it leads to.
abbrev pub request_of : (check : CsrCheck) (msg : UserRegister) → IsSigned check msg → CsrRequest
request_of check msg signed = record {
  user_name = msg.user_name;
  pem_csr = check.pem signed.req;
  rsa_figureprint = check.sha1 msg.rsa_pubkey;
}

abbrev pub with_cert : Bytes → Response
with_cert cert = register_result register_succeed (some cert)

abbrev pub without_cert : Response
without_cert = register_result register_succeed_pendding_cert none

-- The answers that belong to a verdict. With the certificate come two, and which comes first hangs
-- on whether the completion of the update is run before the second post.
abbrev pub answers : (ℕ → ℕ) → Verdict → List Response
answers turns down = register_result register_failed_ca_down none ∷ []
answers turns pending = without_cert ∷ []
answers turns (issued cert) =
    if turns 1 == 0 then without_cert ∷ with_cert cert ∷ [] else with_cert cert ∷ without_cert ∷ []

take-nil : {A : Type 0} (n : ℕ) → take {A = A} n [] ≡ []
take-nil zero = refl
take-nil (suc n) = refl

-- One answer that waits, and one that is sent by the handler before which it may be run.
one_waiting :
    (n : ℕ) (cert : Bytes)
    → take n (with_cert cert ∷ []) ++ without_cert ∷ (drop n (with_cert cert ∷ []) ++ [])
      ≡ (if n == 0 then without_cert ∷ with_cert cert ∷ [] else with_cert cert ∷ without_cert ∷ [])
one_waiting zero cert = refl
one_waiting (suc n) cert =
    let more : (suc n == 0) ≡ false = ground arith in
    rw (take-nil {A = Response} n, drop-nil {A = Response} n, more)

module _ (soci : Soci) (up : IsUp soci) where
  abbrev pub certified : Verdict → Option (Option Bytes)
  certified down = none
  certified pending = some none
  certified (issued cert) = some (some (pg_escape_bytea soci cert))

  -- The answers and the users after the posts for a user that is in the table with no certificate.
  posts_view :
      (turns : ℕ → ℕ) (u : Bytes) (t : soci.Table) (w : Verdict)
      → up.view t u ≡ some none
      → (t' : soci.Table) × (csr_posts soci u turns 0 (posts_of w) [] t ≡ ok (answers turns w, t'))
        × ((v : Bytes) → up.view t' v ≡ (if equal u v then certified w else up.view t v))
  unfolding csr_posts csr_sent delete_user update_user_cert changed
  posts_view turns u t down h =
      let (t', e, f) = up.deletes t u in
      (t', rw (take-nil {A = Response} (turns 0), drop-nil {A = Response} (turns 0), e), f)
  posts_view turns u t pending h = (
    t,
    rw (take-nil {A = Response} (turns 0), drop-nil {A = Response} (turns 0)),
    λ v. ground (arith, equal_iff u v, h),
  )
  posts_view turns u t (issued cert) h =
      let (t', e, f) = up.updates t u (pg_escape_bytea soci cert) in
      (
        t',
        rw (
          take-nil {A = Response} (turns 0),
          drop-nil {A = Response} (turns 0),
          up.opened t,
          e,
          one_waiting (turns 1) cert,
        ),
        λ v. f v ∙ rw h,
      )

  module _ (check : CsrCheck) (msg : UserRegister) (t : soci.Table) (signed : IsSigned check msg)
      (name : msg.user_name ≢ []) where
    begin_step :
        begin_register soci check (some msg) t
        ≡ ok (
            let (done, t1) =
              register_user soci msg.user_name msg.rsa_pubkey msg.mail_address msg.cell_phone t in
            registered soci check msg signed.req done t1)
    unfolding begin_register register_valid register_read
    begin_step =
        let named : equal msg.user_name [] ≡ false =
          ground (arith, equal_iff msg.user_name [], name) in
        rw (
          named, register_valid, signed.reads_req, signed.reads_key, register_read, signed.verified,
        )

    -- With the table up, a name that no user has gets into it, and a request is made.
    pub begin-free :
        up.view t msg.user_name ≡ none
        → (t1 : soci.Table) × (begin_register soci check (some msg) t
            ≡ ok (record { sent = []; table = t1; request = some (request_of check msg signed) }))
          × ((v : Bytes)
              → up.view t1 v ≡ (if equal msg.user_name v then some none else up.view t v))
    unfolding registered register_user insert_free changed
    begin-free free =
        let (t1, e, f) =
          up.inserts t msg.user_name (pg_escape_bytea soci msg.rsa_pubkey) msg.mail_address
            msg.cell_phone free in
        (t1, begin_step ∙ rw (up.select_none t msg.user_name free, e), f)

    -- A name that a user has is refused, and nothing changes.
    pub begin-taken :
        (cert : Option Bytes)
        → up.view t msg.user_name ≡ some cert
        → begin_register soci check (some msg) t
          ≡ ok (record {
            sent = register_result register_failed_name_taken none ∷ [];
            table = t;
            request = none;
          })
    unfolding registered register_user insert_free
    begin-taken cert taken = begin_step ∙ rw (up.select_some t msg.user_name cert taken)

    module _ (send : Bytes → Bytes → List (ℕ × Bytes)) (turns : ℕ → ℕ) where
      -- What a verdict comes to, if its posts are those that are made.
      pub register_posted :
          (w : Verdict)
          → send (check.pem signed.req) (check.sha1 msg.rsa_pubkey) ≡ posts_of w
          → up.view t msg.user_name ≡ none
          → (t' : soci.Table) × (user_register soci check send turns (some msg) t
              ≡ ok (answers turns w, t'))
            × ((v : Bytes)
                → up.view t' v ≡ (if equal msg.user_name v then certified w else up.view t v))
      unfolding user_register send_request
      register_posted w posts free =
          let (t1, begun, f) = begin-free free in
          let (t', sent, users) =
            posts_view turns msg.user_name t1 w (f msg.user_name ∙ rw (equal_refl msg.user_name)) in
          (
            t',
            rw (begun, posts) sent,
            λ v.
                users v
                ∙ if_again (equal msg.user_name v) (certified w) (some none) (up.view t v) (f v),
          )

      pub user_register-taken :
          (cert : Option Bytes)
          → up.view t msg.user_name ≡ some cert
          → user_register soci check send turns (some msg) t
            ≡ ok (register_result register_failed_name_taken none ∷ [], t)
      unfolding user_register send_request
      user_register-taken cert taken = rw (begin-taken cert taken)
