-- ===== src/Login/History.antt =====
-- Logins over the life of the server: who can be logged in at all. A connection goes by its
-- address, which the next connection may have when it is gone.
use mathlib.Core.Path.{subst}
use avrouter.Prelude.{
  ℕ, ◌≡◌, ◌≢◌, refl, sym, ◌∙◌, Bool, true, false, Bool-cases, ◌⊎◌, inl, inr, List, [], ◌∷◌, none,
  some, Bytes, Run, ok, Fault, fault, out_of_bounds, ◌>>=◌, >>=-elim, if◌then◌else◌, ◌==◌, ==_iff,
  equal, arith, length, ltb,
}
use avrouter.Prelude.Dict.{find}
use avrouter.ModulePrivate.{empty_any, of_string, of_bytes, retrive_module_private}
use avrouter.Forward.{set_infos}
use avrouter.Login.{
  Crypto, hello, succeed, LoginResult, LoginMessage, login_check_key, symmetickey, Login,
  set_status, store_info, write_msg, process_login_message, answer_hello, process_hello_message,
}
use avrouter.Login.Outcome.{
  IsAuthentic, check_key, check_key-store_info, check_key-store_other, Step, login-Step,
}

-- A hello on a connection, with the public and the shared key that OpenSSL makes of it, or a login,
-- or a new connection at an address, which may have been another's.
pub data Call : Type 0 where
  greet : ℕ → Bytes → Bytes → Call
  log : ℕ → LoginMessage → Call
  renew : ℕ → Call

module _ (ssl : Crypto) (encode_result : LoginResult → Bytes) (encode_hello : Bytes → Bytes) where
  abbrev pub new_login : Login ssl
  new_login = record { log_state = λ c. none; infos = λ c. []; written = [] }

  unfoldable pub step : Call → Login ssl → Run (Login ssl)
  step (greet c pub_key shared_key) s =
      process_hello_message ssl (Bytes × Bytes) encode_hello (some (pub_key, shared_key))
        (λ keys. keys) c s
  -- What the modules keep in a connection goes with it; what they keep by its address stays.
  step (renew c) s = ok (record s { infos = set_infos c [] s.infos })
  step (log c login) s = process_login_message ssl encode_result (some login) c s

  -- The calls so far, the latest first.
  unfoldable pub run : List Call → Run (Login ssl)
  run [] = ok new_login
  run (call ∷ before) = do s ← run before; step call s

  -- A hello on the connection that is now at the address has sent this key.
  abbrev pub Greeted : ℕ → Bytes → List Call → Type 0
  Greeted c k [] = ⊥
  Greeted c k (greet d pub_key _ ∷ before) = ((c ≡ d) × (k ≡ pub_key)) ⊎ Greeted c k before
  Greeted c k (log d login ∷ before) = Greeted c k before
  Greeted c k (renew d ∷ before) = (c ≢ d) × Greeted c k before

  -- An authentic login came from the address, for a key that a hello before it had sent there on
  -- the same connection.
  abbrev pub Proved : ℕ → List Call → Type 0
  Proved c [] = ⊥
  Proved c (greet d _ _ ∷ before) = Proved c before
  Proved c (renew d ∷ before) = Proved c before
  Proved c (log d login ∷ before) =
      ((k : Bytes) × (c ≡ d) × IsAuthentic ssl login k × Greeted c k before) ⊎ Proved c before

  pub record Inv (calls : List Call) (s : Login ssl) : Type 0 where
    pub keys : (c : ℕ) (k : Bytes) → check_key ssl s c ≡ of_string k → Greeted c k calls
    pub proved : (c : ℕ) → s.log_state c ≡ some succeed → Proved c calls

  -- What a hello leaves.
  abbrev greeted : ℕ → Bytes → Bytes → Login ssl → Login ssl
  greeted c pub_key shared_key s = write_msg ssl c (encode_hello pub_key) (
      store_info ssl c login_check_key (of_string pub_key) (
        store_info ssl c symmetickey (of_bytes shared_key)
          (record s { log_state = set_status ssl c hello s.log_state })))

  check_key-greeted :
      (c d : ℕ) (pub_key shared_key : Bytes) (s : Login ssl)
      → check_key ssl (greeted c pub_key shared_key s) d
        ≡ (if c == d then of_string pub_key else check_key ssl s d)
  unfolding equal
  check_key-greeted c d pub_key shared_key s =
      let t = record s { log_state = set_status ssl c hello s.log_state } in
      let u = store_info ssl c symmetickey (of_bytes shared_key) t in
      check_key-store_info ssl c d login_check_key (of_string pub_key) u
      ∙ rw (check_key-store_other ssl c d symmetickey (of_bytes shared_key) t refl)

  greeted-Inv :
      (c : ℕ) (pub_key shared_key : Bytes) (before : List Call) (s : Login ssl)
      → Inv before s
      → Inv (greet c pub_key shared_key ∷ before) (greeted c pub_key shared_key s)
  greeted-Inv c pub_key shared_key before s v = record {
    keys = λ d k e.
        ground (arith, check_key-greeted c d pub_key shared_key s, v.keys d k, ==_iff c d, e);
    proved = λ d e. ground (arith, v.proved d, e);
  }

  no_fault :
      {A : Type 0} (b : Bool) (f : Fault) (t t' : A)
      → (if b then fault f else ok t) ≡ ok t'
      → t ≡ t'
  no_fault true f t t' e = cc
  no_fault false f t t' e = cc

  greet-Inv :
      (c : ℕ) (pub_key shared_key : Bytes) (before : List Call) (s s' : Login ssl)
      → step (greet c pub_key shared_key) s ≡ ok s'
      → Inv before s
      → Inv (greet c pub_key shared_key ∷ before) s'
  unfolding step process_hello_message answer_hello
  greet-Inv c pub_key shared_key before s s' e v =
      subst (Inv (greet c pub_key shared_key ∷ before))
        (no_fault (ltb 512 (length pub_key)) out_of_bounds _ s' e)
        (greeted-Inv c pub_key shared_key before s v)

  log_step-Inv :
      (c : ℕ) (login : LoginMessage) (before : List Call) (s s' : Login ssl) (k : Bytes)
      → check_key ssl s c ≡ of_string k
      → Step ssl login c k s s'
      → Inv before s
      → Inv (log c login ∷ before) s'
  log_step-Inv c login before s s' k sent did v = record {
    keys = λ d j h. v.keys d j (sym (did.keys d) ∙ h);
    proved = λ d h. elim (did.status d h) [
      | inl old ↦ inr (v.proved d old)
      | inr now ↦ inl (k, sym now.0, now.1, subst (λ i. Greeted i k before) now.0 (v.keys c k sent))
    ];
  }

  log-Inv :
      (c : ℕ) (login : LoginMessage) (before : List Call) (s s' : Login ssl)
      → step (log c login) s ≡ ok s'
      → Inv before s
      → Inv (log c login ∷ before) s'
  unfolding step
  log-Inv c login before s s' e v = elim (login-Step ssl login c encode_result s s' e) [
    | inl same ↦
        subst (Inv (log c login ∷ before)) (sym same)
          record { keys = v.keys; proved = λ d h. inr (v.proved d h) }
    | inr rest ↦ log_step-Inv c login before s s' (rest.0) (rest.1) (rest.2) v
  ]

  renewed :
      (c : ℕ) (s s' : Login ssl)
      → step (renew c) s ≡ ok s'
      → record s { infos = set_infos c [] s.infos } ≡ s'
  unfolding step
  renewed c s s' e = cc e

  renew-Inv :
      (c : ℕ) (before : List Call) (s : Login ssl)
      → Inv before s
      → Inv (renew c ∷ before) (record s { infos = set_infos c [] s.infos })
  unfolding retrive_module_private find
  renew-Inv c before s v = record {
    keys = λ d k h. elim (Bool-cases (c == d)) [
      | inl e ↦ let bare : empty_any ≡ of_string k = rw e at h in cc
      | inr e ↦
          let kept : check_key ssl s d ≡ of_string k = rw e at h in
          (λ same. ground (arith, ==_iff c d, e, same), v.keys d k kept)
    ];
    proved = λ d h. v.proved d h;
  }

  run-Inv : (calls : List Call) (s : Login ssl) → run calls ≡ ok s → Inv calls s
  unfolding run retrive_module_private find
  run-Inv [] s e =
      let start : new_login ≡ s = cc e in
      subst (Inv []) start record { keys = λ c k h. cc; proved = λ c h. cc }
  run-Inv (greet c p k ∷ before) s e =
      >>=-elim (run before) _ e λ s1 e1 f1. greet-Inv c p k before s1 s f1 (run-Inv before s1 e1)
  run-Inv (renew c ∷ before) s e = >>=-elim (run before) _ e λ s1 e1 f1.
      subst (Inv (renew c ∷ before)) (renewed c s1 s f1)
        (renew-Inv c before s1 (run-Inv before s1 e1))
  run-Inv (log c login ∷ before) s e =
      >>=-elim (run before) _ e λ s1 e1 f1. log-Inv c login before s1 s f1 (run-Inv before s1 e1)

  -- After any hellos and logins, on connections that may get the address of one that is gone, an
  -- address whose status is `succeed` has had a login by a certificate that the check does not
  -- refuse, with a string that the certificate's key decrypts to a key, and before that a hello
  -- that sent this key on the same connection. A new connection at the address has the status of
  -- the old one.
  pub run-Proved :
      (calls : List Call) (s : Login ssl) (c : ℕ)
      → run calls ≡ ok s
      → s.log_state c ≡ some succeed
      → Proved c calls
  run-Proved calls s c e h = (run-Inv calls s e).proved c h
