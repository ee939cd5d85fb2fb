-- ===== src/Login/Exchange.antt =====
-- What a hello and a login that is accepted leave behind.
use avrouter.Prelude.{
  ℕ, ◌≤◌, ◌≡◌, ◌≢◌, refl, ◌∙◌, true, false, not, ◌&&◌, [], ◌∷◌, ◌++◌, Option, some, Bytes, equal,
  equal_refl, length, ltb, ==_refl, ◌==◌, ok, arith,
}
use avrouter.ModulePrivate.{
  Any, of_string, of_bytes, of_cert, after_retrive, retrive_module_private, retrive-store,
}
use avrouter.Forward.{set_infos}
use avrouter.Login.{
  Crypto, hello, succeed, LoginResult, login_succeed, LoginMessage, Login, rsa_public_decrypt,
  login_check_key, user_name_key, check_cert, finish, process_login_message, process_hello_message,
  answer_hello, write_msg, log_in, store_info, set_status, symmetickey, user_cert_key,
}

module _ (ssl : Crypto) where
  -- A login by a certificate that OpenSSL reads and accepts, with the key encrypted by its owner.
  pub record IsAccepted (l : LoginMessage) (key name : Bytes) : Type 0 where
    pub cert : ssl.Cert
    pub rsa : ssl.Rsa
    pub parsed : ssl.d2i l.user_cert ≡ some cert
    pub called : ssl.common_name cert ≡ some name
    pub owner : ssl.rsa_key cert ≡ some rsa
    pub verified : ssl.verify_cert cert ≢ 0
    pub decrypted : rsa_public_decrypt ssl rsa l.encryped_radom_key ≡ ok key

  retrive-stored :
      (conn : ℕ) (name : Bytes) (value : Any (Option ssl.Cert)) (s : Login ssl)
      → retrive_module_private name ((store_info ssl conn name value s).infos conn) ≡ value
  retrive-stored conn name value s =
      rw (==_refl conn) (retrive-store name name value (s.infos conn) ∙ rw (equal_refl name))

  -- A hello sets the status, stores the key and writes it.
  pub hello_lem :
      (ClientHello : Type 0) (encode_hello : Bytes → Bytes) (h : ClientHello)
      (exchange : ClientHello → Bytes × Bytes) (conn : ℕ) (s : Login ssl) (key shared : Bytes)
      → exchange h ≡ (key, shared)
      → length key ≤ 512
      → (s1 : Login ssl) × (process_hello_message ssl ClientHello encode_hello
            (some h)
            exchange
            conn
            s
          ≡ ok s1)
        × (s1.log_state conn ≡ some hello)
        × (retrive_module_private login_check_key (s1.infos conn) ≡ of_string key)
        × (s1.written ≡ s.written ++ (conn, encode_hello key) ∷ [])
  unfolding process_hello_message answer_hello
  hello_lem ClientHello encode_hello h exchange conn s key shared e short =
      let fits : ltb 512 (length key) ≡ false = ground (arith, short) in
      let symmetic : Login ssl =
        store_info ssl conn symmetickey (of_bytes shared)
          (record s { log_state = set_status ssl conn hello s.log_state }) in
      (
        write_msg ssl conn (encode_hello key)
            (store_info ssl conn login_check_key (of_string key) symmetic),
        rw (e, fits),
        rw (==_refl conn),
        retrive-stored conn login_check_key (of_string key) symmetic,
        refl,
      )

  pub login_lem :
      (encode_result : LoginResult → Bytes) (l : LoginMessage) (conn : ℕ) (s : Login ssl)
      (key name : Bytes)
      → IsAccepted l key name
      → s.log_state conn ≡ some hello
      → retrive_module_private login_check_key (s.infos conn) ≡ of_string key
      → (s1 : Login ssl) × (process_login_message ssl encode_result (some l) conn s ≡ ok s1)
        × (s1.log_state conn ≡ some succeed)
        × (retrive_module_private user_name_key (s1.infos conn) ≡ of_string name)
        × (s1.written ≡ s.written ++ (conn, encode_result login_succeed) ∷ [])
  unfolding process_login_message log_in check_cert finish
  login_lem encode_result l conn s key name a greeted known =
      let retrived : Login ssl = record s {
        infos = set_infos conn (after_retrive login_check_key (s.infos conn)) s.infos;
      } in
      let stored : Login ssl =
        store_info ssl conn user_cert_key (of_cert (ssl.d2i l.user_cert)) retrived in
      let state : Login ssl = record stored {
        log_state = set_status ssl conn succeed stored.log_state;
      } in
      let valid : (not (ssl.verify_cert a.cert == 0) && equal key key) ≡ true =
        ground (arith, a.verified, equal_refl key) in
      (
        write_msg ssl conn (encode_result login_succeed)
            (store_info ssl conn user_name_key (of_string name) state),
        rw (greeted, known, a.parsed, a.called, a.owner, a.decrypted, valid),
        rw (==_refl conn),
        retrive-stored conn user_name_key (of_string name) state,
        refl,
      )
