-- ===== src/Login/Outcome.antt =====
-- Who is logged in: the status of a connection and the keys that the server has sent.
use mathlib.Core.Path.{subst}
use avrouter.Prelude.{
  ℕ, ◌≡◌, ◌≢◌, refl, ap, ◌∙◌, Bool, true, false, not, ◌&&◌, ◌⊎◌, inl, inr, Option, none, some,
  Bytes, ok, >>=-elim, if◌then◌else◌, ◌==◌, ==_iff, equal, equal_iff, arith,
}
use avrouter.ModulePrivate.{
  Any, empty_any, of_string, of_cert, of_bytes, cast_string, retrive_module_private, after_retrive,
  retrive-store, retrive-after_retrive,
}
use avrouter.Forward.{set_infos}
use avrouter.Login.{
  Crypto, Status, succeed, LoginResult, LoginMessage, login_check_key, user_cert_key, user_name_key,
  Login, rsa_public_decrypt, deref, name_of, store_info, finish, check_cert, log_in,
  process_login_message,
}

module _ (ssl : Crypto) where
  -- The login is by a certificate that the check does not refuse, whose owner has encrypted the key
  -- `k`.
  pub record IsAuthentic (login : LoginMessage) (k : Bytes) : Type 0 where
    pub cert : ssl.Cert
    pub rsa : ssl.Rsa
    pub parsed : ssl.d2i login.user_cert ≡ some cert
    pub verified : ssl.verify_cert cert ≢ 0
    pub key : ssl.rsa_key cert ≡ some rsa
    pub decrypted : rsa_public_decrypt ssl rsa login.encryped_radom_key ≡ ok k

  abbrev pub check_key : Login ssl → ℕ → Any (Option ssl.Cert)
  check_key s c = retrive_module_private login_check_key (s.infos c)

  pub check_key-store_info :
      (c d : ℕ) (name : Bytes) (value : Any (Option ssl.Cert)) (s : Login ssl)
      → check_key (store_info ssl c name value s) d ≡ (
          if c == d
          then (if equal name login_check_key then value else check_key s c)
          else check_key s d)
  check_key-store_info c d name value s =
      ground (arith, retrive-store name login_check_key value (s.infos c))

  -- Other names than that of the key leave the key.
  pub check_key-store_other :
      (c d : ℕ) (name : Bytes) (value : Any (Option ssl.Cert)) (s : Login ssl)
      → equal name login_check_key ≡ false
      → check_key (store_info ssl c name value s) d ≡ check_key s d
  check_key-store_other c d name value s h =
      ground (arith, check_key-store_info c d name value s, ==_iff c d, h)

  -- What a login does to the status and keeps of the keys.
  module _ (login : LoginMessage) (c : ℕ) where
    pub record Step (k : Bytes) (s s' : Login ssl) : Type 0 where
      pub keys : (d : ℕ) → check_key s' d ≡ check_key s d
      pub status :
          (d : ℕ)
          → s'.log_state d ≡ some succeed
          → (s.log_state d ≡ some succeed) ⊎ ((c ≡ d) × IsAuthentic login k)

    module _ (encode_result : LoginResult → Bytes) where
      finish-Step :
          (b : Bool) (name k : Bytes) (s : Login ssl)
          → (b ≡ true → IsAuthentic login k)
          → Step k s (finish ssl encode_result b name c s)
      unfolding finish equal
      finish-Step true name k s h = record {
        keys = λ d. check_key-store_other c d user_name_key (of_string name) s refl;
        status = λ d e. ground (arith, ==_iff c d, h refl);
      }
      finish-Step false name k s h = record { keys = λ d. refl; status = λ d e. inl e }

      -- A step after one that leaves keys and status alone.
      Step-before :
          (k : Bytes) (s s1 s' : Login ssl)
          → ((d : ℕ) → check_key s1 d ≡ check_key s d)
          → s1.log_state ≡ s.log_state
          → Step k s1 s'
          → Step k s s'
      Step-before k s s1 s' e f step = record {
        keys = λ d. step.keys d ∙ e d;
        status = λ d h.
            subst (λ states. (states d ≡ some succeed) ⊎ ((c ≡ d) × IsAuthentic login k)) f
              (step.status d h);
      }

      both_hold : (a b : Bool) → (a && b) ≡ true → (a ≡ true) × (b ≡ true)
      both_hold a b h = ground arith

      authentic :
          (cert : ssl.Cert) (rsa : ssl.Rsa) (decrypted k : Bytes)
          → ssl.d2i login.user_cert ≡ some cert
          → ssl.rsa_key cert ≡ some rsa
          → rsa_public_decrypt ssl rsa login.encryped_radom_key ≡ ok decrypted
          → (not (ssl.verify_cert cert == 0) && equal decrypted k) ≡ true
          → IsAuthentic login k
      authentic cert rsa decrypted k parsed key plain h =
          let (valid, same) = both_hold (not (ssl.verify_cert cert == 0)) (equal decrypted k) h in
          let e : decrypted ≡ k = ground (arith, equal_iff decrypted k, same) in
          record {
            cert = cert;
            rsa = rsa;
            parsed = parsed;
            verified = ground (arith, valid);
            key = key;
            decrypted = plain ∙ ap ok e;
          }

      deref-eq-ok : {A : Type 0} (o : Option A) {a : A} → deref ssl o ≡ ok a → o ≡ some a
      deref-eq-ok none e = cc
      deref-eq-ok (some b) e = cc

      finished :
          (cert : ssl.Cert) (rsa : ssl.Rsa) (decrypted k name : Bytes) (s s' : Login ssl)
          → ssl.d2i login.user_cert ≡ some cert
          → ssl.rsa_key cert ≡ some rsa
          → rsa_public_decrypt ssl rsa login.encryped_radom_key ≡ ok decrypted
          → ok (
              finish ssl encode_result
                (not (ssl.verify_cert cert == 0) && equal decrypted k)
                name
                c
                (store_info ssl c user_cert_key (of_cert (ssl.d2i login.user_cert)) s))
            ≡ ok s'
          → Step k s s'
      unfolding equal
      finished cert rsa decrypted k name s s' parsed key plain e =
          let stored = store_info ssl c user_cert_key (of_cert (ssl.d2i login.user_cert)) s in
          let valid = not (ssl.verify_cert cert == 0) && equal decrypted k in
          let same : finish ssl encode_result valid name c stored ≡ s' = cc e in
          subst (Step k s) same (
            Step-before k s stored _
              (λ d.
                check_key-store_other c d user_cert_key (of_cert (ssl.d2i login.user_cert)) s refl)
              refl
              (finish-Step valid name k stored (authentic cert rsa decrypted k parsed key plain)))

      check_cert-Step :
          (k : Bytes) (s s' : Login ssl)
          → check_cert ssl encode_result (ssl.d2i login.user_cert) login k c s ≡ ok s'
          → Step k s s'
      unfolding check_cert
      check_cert-Step k s s' e = >>=-elim (deref ssl (ssl.d2i login.user_cert)) _ e λ cert e1 f1.
          >>=-elim (name_of ssl (ssl.common_name cert)) _ f1 λ name e2 f2.
            >>=-elim (deref ssl (ssl.rsa_key cert)) _ f2 λ rsa e3 f3.
              >>=-elim (rsa_public_decrypt ssl rsa login.encryped_radom_key) _ f3 λ plain e4 f4.
                finished cert rsa plain k name s s' (deref-eq-ok _ e1) (deref-eq-ok _ e3) e4 f4

      cast_string-eq-ok :
          (a : Any (Option ssl.Cert)) {k : Bytes} → cast_string a ≡ ok k → a ≡ of_string k
      cast_string-eq-ok empty_any e = cc
      cast_string-eq-ok (of_string j) e = cc
      cast_string-eq-ok (of_bytes j) e = cc
      cast_string-eq-ok (of_cert x) e = cc

      retrived : Login ssl → Login ssl
      retrived s = record s {
        infos = set_infos c (after_retrive login_check_key (s.infos c)) s.infos;
      }

      check_key-retrived : (s : Login ssl) (d : ℕ) → check_key (retrived s) d ≡ check_key s d
      unfolding retrived
      check_key-retrived s d =
          ground (arith, retrive-after_retrive login_check_key login_check_key (s.infos c))

      log_in-Step :
          (state : Option Status) (s s' : Login ssl)
          → log_in ssl encode_result state (some login) c s ≡ ok s'
          → (s' ≡ s) ⊎ ((k : Bytes) × (check_key s c ≡ of_string k) × Step k s s')
      unfolding log_in retrived
      log_in-Step none s s' e = inl (cc e)
      log_in-Step (some state) s s' e = >>=-elim (cast_string (check_key s c)) _ e λ k e1 f1. inr (
        k,
        cast_string-eq-ok (check_key s c) e1,
        Step-before k s (retrived s) s' (check_key-retrived s) refl
            (check_cert-Step k (retrived s) s' f1),
      )

      pub login-Step :
          (s s' : Login ssl)
          → process_login_message ssl encode_result (some login) c s ≡ ok s'
          → (s' ≡ s) ⊎ ((k : Bytes) × (check_key s c ≡ of_string k) × Step k s s')
      unfolding process_login_message
      login-Step s s' e = log_in-Step (s.log_state c) s s' e
