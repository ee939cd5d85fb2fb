-- ===== src/Tests/Register.antt =====
-- Registrations in a table that is a map from names to certificates.
use avrouter.Prelude.{
  suc, length, ◌≡◌, refl, sym, ap, ◌∙◌, ◌⊎◌, inl, inr, Bool, true, false, Bool-cases, Option-cases,
  List, [], ◌∷◌, ◌++◌, Option, none, some, Bytes, codes, equal, equal_iff, if◌then◌else◌, ok, fault,
  null_pointer, arith,
}
use avrouter.Prelude.Dict.{Dict, find, assign, erase, find-assign, find-erase}
use avrouter.Database.{Soci, availability_check}
use avrouter.Register.{
  check_name, name_taken, UserRegister, CsrCheck, begin_register, register_valid,
}
use avrouter.Register.Httpd.{answer_json}
use avrouter.Register.History.{Event, begin, post, State, step, run, run-keeps}
use avrouter.Register.Outcome.{IsUp, IsSigned, certify}

abbrev is_there : Option (Option Bytes) → Bool
is_there none = false
is_there (some cert) = true

-- An update of a name that no row has changes nothing.
abbrev pub update : Bytes → Option Bytes → Dict (Option Bytes) → Dict (Option Bytes)
update u cert t = elim (find u t) [ none ↦ t | some old ↦ assign u cert t ]

pub update-find :
    (u v cert : Bytes) (t : Dict (Option Bytes))
    → find v (update u (some cert) t) ≡ (if equal u v then certify cert (find u t) else find v t)
update-find u v cert t = elim (Option-cases (find u t)) [
  | inl e ↦ elim (Bool-cases (equal u v)) [
    | inl same ↦
        let to : u ≡ v = ground (arith, same, equal_iff u v) in
        let also : find v t ≡ none = ap (λ w. find w t) (sym to) ∙ e in rw (update, e, same) also
    | inr other ↦ rw (update, e, other)
  ]
  | inr e ↦ rw (update, e.1) (find-assign u v (some cert) t)
]

abbrev pub users : Soci
users = record {
  Table = Dict (Option Bytes);
  is_open = λ t. true;
  select = λ t u. some (is_there (find u t));
  insert = λ t u key mail phone. some (assign u none t);
  delete = λ t u. some (erase u t);
  update_cert = λ t u cert. some (update u (some cert) t);
  escape_bytea_conn = λ bytes. (bytes ++ 0 ∷ [], suc (length bytes));
}

abbrev pub users_up : IsUp users
users_up = record {
  view = λ t u. find u t;
  select_none = λ t u e. rw e;
  select_some = λ t u x e. rw e;
  inserts = λ t u key mail phone e. (assign u none t, refl, λ v. find-assign u v none t);
  deletes = λ t u. (erase u t, refl, λ v. find-erase u v t);
  updates = λ t u cert. (update u (some cert) t, refl, λ v. update-find u v cert t);
  opened = λ t. refl;
}

abbrev pub trusting : CsrCheck
trusting = record {
  Req = Bytes;
  Key = Bytes;
  d2i_req = λ csr. some csr;
  d2i_key = λ key. if equal key [] then none else some key;
  verifies = λ csr key. true;
  pem = λ csr. csr;
  sha1 = λ key. key;
}

abbrev pub bob : UserRegister
bob = record {
  user_name = codes "bob";
  csr = [];
  rsa_pubkey = codes "k";
  mail_address = [];
  cell_phone = [];
}

pub bob-IsSigned : IsSigned trusting bob
unfolding equal
bob-IsSigned = record {
  req = [];
  key = codes "k";
  reads_req = refl;
  reads_key = refl;
  verified = refl;
}

abbrev mallory : UserRegister
mallory = record bob { rsa_pubkey = codes "m" }

abbrev amy : UserRegister
amy = record bob { user_name = codes "amy" }

-- Two registrations overlap, and the authority fails the second one.
abbrev some_events : List Event
some_events =
    begin (some amy)
    ∷ begin (some mallory)
    ∷ begin none
    ∷ post 0 (0, codes "c")
    ∷ post 1 (1, [])
    ∷ post 0 (5, [])
    ∷ begin (some bob)
    ∷ []

abbrev start : State users
start = record { table = (codes "bob", some (codes "c")) ∷ []; requests = [] }

-- A key that OpenSSL does not read.
null_key :
    run users trusting (begin (some (record bob { rsa_pubkey = [] })) ∷ []) start
    ≡ fault null_pointer
unfolding run step begin_register register_valid equal
null_key = refl

run-keeps_example :
    ((s' : State users) × (run users trusting some_events start ≡ ok s')
      × (find (codes "bob") s'.table ≡ some (some (codes "c")))
      × (check_name users (some (codes "bob")) s'.table ≡ name_taken ∷ [])
      × (answer_json (availability_check users (codes "bob") s'.table)
          ≡ codes "{\"code\" : \"0\"}"))
    ⊎ (run users trusting some_events start ≡ fault null_pointer)
unfolding find equal
run-keeps_example =
    run-keeps users users_up trusting some_events start (codes "bob") (some (codes "c")) (λ e. cc)
      refl tt
