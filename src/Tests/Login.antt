-- ===== src/Tests/Login.antt =====
-- A login with a stand-in for OpenSSL.
use avrouter.Prelude.{◌≡◌, refl, List, [], ◌∷◌, Option, none, some, Bytes, codes, Run, ok, fault}
use avrouter.Prelude.{equal}
use avrouter.Prelude.Dict.{find, assign}
use avrouter.ModulePrivate.{retrive_module_private, after_retrive, store_module_private}
use avrouter.Login.{
  Crypto, LoginResult, succeed, Login, decrypt_blocks, finish, check_cert, process_login_message,
  answer_hello, process_hello_message,
}
use avrouter.Login.History.{Call, greet, log, renew, new_login, step, run, Proved, run-Proved}

-- Blocks of two bytes, of which the first is padding.
abbrev second_of : Bytes → Option Bytes
second_of (a ∷ b ∷ []) = some (b ∷ [])
second_of _ = none

abbrev pub toy : Crypto
toy = record {
  Cert = Bytes;
  Rsa = Unit {0};
  d2i = λ bytes. some bytes;
  common_name = λ cert. some cert;
  verify_cert = λ cert. 1;
  rsa_key = λ cert. some _;
  rsa_size = λ rsa. 2;
  public_decrypt = λ rsa block. second_of block;
}

abbrev two_blocks : List (Bytes × Bytes)
two_blocks = (0 ∷ 5 ∷ [], 5 ∷ []) ∷ (0 ∷ 6 ∷ [], 6 ∷ []) ∷ []

abbrev show : LoginResult → Bytes
show result = []

abbrev echo : Bytes → Bytes
echo key = key

-- A hello that sends the key 5, then a login with a block of it, and then another connection at the
-- same address: it is logged in without a login.
abbrev exchange : List Call
exchange =
    renew 1
    ∷ log 1 (record { user_cert = codes "me"; encryped_radom_key = 0 ∷ 5 ∷ [] })
    ∷ greet 1 (5 ∷ []) (9 ∷ [])
    ∷ []

abbrev state_of : Run (Login toy) → Login toy
state_of (ok s) = s
state_of (fault why) = new_login toy show echo

abbrev logged_in : Login toy
logged_in = state_of (run toy show echo exchange)

run-exchange : run toy show echo exchange ≡ ok logged_in
unfolding run step process_hello_message answer_hello process_login_message check_cert finish
    decrypt_blocks find assign equal retrive_module_private after_retrive store_module_private
run-exchange = refl

status-logged_in : logged_in.log_state 1 ≡ some succeed
unfolding run step process_hello_message answer_hello process_login_message check_cert finish
    decrypt_blocks find assign equal retrive_module_private after_retrive store_module_private
status-logged_in = refl

run-Proved_example : Proved toy show echo 1 exchange
run-Proved_example = run-Proved toy show echo exchange logged_in 1 run-exchange status-logged_in
