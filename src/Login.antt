-- ===== src/Login.antt =====
-- src/login_moudle.cpp: the exchange of keys and the login by certificate. OpenSSL is a parameter.
pub mod Blocks
pub mod Outcome
pub mod History
pub mod Exchange
use avrouter.Prelude.{
  ℕ, zero, suc, ◌+◌, Bool, true, false, not, ◌&&◌, List, [], ◌∷◌, ◌++◌, Option, none, some, Bytes,
  codes, length, take, drop, Run, ok, fault, null_pointer, length_error, out_of_bounds, ◌>>=◌,
  if◌then◌else◌, ltb, ◌==◌, equal,
}
use avrouter.Prelude.Dict.{Dict}
use avrouter.ModulePrivate.{
  Any, of_string, of_bytes, of_cert, cast_string, retrive_module_private, after_retrive,
  store_module_private,
}
use avrouter.Forward.{set_infos}
use avrouter.Router.{ServerEffect, wait, cancel_timer}

-- What the module calls of OpenSSL: `verify_cert` is the `int` of X509_verify_cert with the root's
-- certificate, `common_name` is `none` where ASN1_STRING_to_UTF8 gives a negative length,
-- `public_decrypt` where RSA_public_decrypt gives -1.
pub record Crypto : Type 1 where
  pub Cert : Type 0
  pub Rsa : Type 0
  pub d2i : Bytes → Option Cert
  pub common_name : Cert → Option Bytes
  pub verify_cert : Cert → ℕ
  pub rsa_key : Cert → Option Rsa
  pub rsa_size : Rsa → ℕ
  pub public_decrypt : Rsa → Bytes → Option Bytes

pub data Status : Type 0 where
  hello succeed : Status

pub data LoginResult : Type 0 where
  login_succeed public_key_mismatch : LoginResult

-- `proto::login`.
pub record LoginMessage : Type 0 where
  pub user_cert : Bytes
  pub encryped_radom_key : Bytes

abbrev pub login_check_key : Bytes
login_check_key = codes "login_check_key"

abbrev pub user_cert_key : Bytes
user_cert_key = codes "user_cert"

abbrev pub user_name_key : Bytes
user_name_key = codes "user_name"

abbrev pub symmetickey : Bytes
symmetickey = codes "symmetickey"

module _ (ssl : Crypto) where
  -- `log_state` by the address of a connection, which nothing takes out again, and what the
  -- connection at each address keeps for the modules.
  pub record Login : Type 0 where
    pub log_state : ℕ → Option Status
    pub infos : ℕ → Dict (Any (Option ssl.Cert))
    pub written : List (ℕ × Bytes)

  -- The string that `append` makes longer by one block; it throws at a length of -1.
  append_block : Option Bytes → Run Bytes → Run Bytes
  append_block none rest = fault length_error
  append_block (some block) rest = rest >>= λ plain. ok (block ++ plain)

  -- `RSA_public_decrypt` of a string, block by block, on fuel; a block of no bytes would not end.
  unfoldable pub decrypt_blocks : ℕ → ssl.Rsa → Bytes → Run Bytes
  unfolding append_block
  decrypt_blocks zero rsa from = ok []
  decrypt_blocks (suc fuel) rsa [] = ok []
  decrypt_blocks (suc fuel) rsa (c ∷ cs) =
      let rest = decrypt_blocks fuel rsa (drop (ssl.rsa_size rsa) (c ∷ cs)) in
      append_block (ssl.public_decrypt rsa (take (ssl.rsa_size rsa) (c ∷ cs))) rest

  abbrev pub rsa_public_decrypt : ssl.Rsa → Bytes → Run Bytes
  rsa_public_decrypt rsa from = decrypt_blocks (length from) rsa from

  -- A pointer of OpenSSL that the next call reads from.
  abbrev pub deref : {A : Type 0} → Option A → Run A
  deref none = fault null_pointer
  deref (some a) = ok a

  -- A string of so many bytes from `ASN1_STRING_to_UTF8`.
  abbrev pub name_of : Option Bytes → Run Bytes
  name_of none = fault length_error
  name_of (some name) = ok name

  -- `cert_validater`, made with the root's certificate: any number but 0 is taken for true.
  abbrev pub verity : ssl.Cert → Bool
  verity cert = not (ssl.verify_cert cert == 0)

  abbrev pub set_status : ℕ → Status → (ℕ → Option Status) → ℕ → Option Status
  set_status c status states d = if c == d then some status else states d

  abbrev pub store_info : ℕ → Bytes → Any (Option ssl.Cert) → Login → Login
  store_info c name value s = record s {
    infos = set_infos c (store_module_private name value (s.infos c)) s.infos;
  }

  abbrev pub write_msg : ℕ → Bytes → Login → Login
  write_msg c msg s = record s { written = s.written ++ (c, msg) ∷ [] }

  module _ (encode_result : LoginResult → Bytes) where
    unfoldable pub finish : Bool → Bytes → ℕ → Login → Login
    finish true name c s = write_msg c (encode_result login_succeed) (
        store_info c user_name_key (of_string name)
          (record s { log_state = set_status c succeed s.log_state }))
    finish false name c s = write_msg c (encode_result public_key_mismatch) s

    -- From the certificate on, with the key that the server has sent.
    unfoldable pub check_cert : Option ssl.Cert → LoginMessage → Bytes → ℕ → Login → Run Login
    check_cert user_cert login check_key c s = do
      let stored = store_info c user_cert_key (of_cert user_cert) s
      cert ← deref user_cert
      name ← name_of (ssl.common_name cert)
      rsa ← deref (ssl.rsa_key cert)
      decrypted ← rsa_public_decrypt rsa login.encryped_radom_key
      ok (finish (verity cert && equal decrypted check_key) name c stored)

    log_in : Option Status → Option LoginMessage → ℕ → Login → Run Login
    log_in none msg c s = ok s
    log_in (some status) msg c s = do
      let retrived = record s {
        infos = set_infos c (after_retrive login_check_key (s.infos c)) s.infos;
      }
      check_key ← cast_string (retrive_module_private login_check_key (s.infos c))
      login ← deref msg
      check_cert (ssl.d2i login.user_cert) login check_key c retrived

    unfoldable pub process_login_message : Option LoginMessage → ℕ → Login → Run Login
    unfolding log_in
    process_login_message msg c s = log_in (s.log_state c) msg c s

  -- With the public key and the shared key that OpenSSL makes of the message; the buffer for the
  -- public key has 512 bytes.
  module _ (ClientHello : Type 0) (encode_hello : Bytes → Bytes) where
    unfoldable pub answer_hello : Bytes × Bytes → ℕ → Login → Run Login
    answer_hello (pub_key, shared_key) c s =
        if ltb 512 (length pub_key)
        then fault out_of_bounds
        else ok (
            write_msg c (encode_hello pub_key) (
              store_info c login_check_key (of_string pub_key)
                (store_info c symmetickey (of_bytes shared_key) s)))

    unfoldable pub process_hello_message :
        Option ClientHello → (ClientHello → Bytes × Bytes) → ℕ → Login → Run Login
    process_hello_message msg exchange c s = do
      let greeted = record s { log_state = set_status c hello s.log_state }
      client_hello ← deref msg
      answer_hello (exchange client_hello) c greeted

-- The timer of the module, which does nothing but run again.
unfoldable pub on_tick : Bool → List ServerEffect
on_tick error = if error then [] else wait ∷ []

unfoldable pub quit : List ServerEffect
quit = cancel_timer ∷ []
