-- ===== src/Main/Dispatch.antt =====
-- Messages and notices that come to the server that `main` sets up.
use avrouter.Prelude.{ℕ, ◌≡◌, refl, [], ◌∷◌, Bytes, codes, equal, ok, if◌then◌else◌, arith}
use avrouter.Prelude.Dict.{find, assign}
use avrouter.Router.{add_process_moudle, do_message}
use avrouter.Main.{Moudles, messages}

module _ {M W : Type 0} (type_name : M → Bytes) (m : Moudles M W) where
  listed :
      messages m
      ≡ (codes "proto.username_availability_check", m.availability_check)
        ∷ (codes "proto.user_register", m.user_register)
        ∷ (codes "proto.client_hello", m.process_hello_message)
        ∷ (codes "proto.login", m.process_login_message)
        ∷ (codes "proto.avpacket", m.process_packet)
        ∷ []
  unfolding messages add_process_moudle find assign equal
  listed = refl

  -- A message goes to the one operation that is registered under the name of its type, and a
  -- message of any other type is dropped.
  pub do_message-messages :
      (msg : M) (conn : ℕ) (w : W)
      → do_message type_name (messages m) msg conn w ≡ (
          let name = type_name msg in
          if equal (codes "proto.username_availability_check") name
          then m.availability_check msg conn w
          else if equal (codes "proto.user_register") name
          then m.user_register msg conn w
          else if equal (codes "proto.client_hello") name
          then m.process_hello_message msg conn w
          else if equal (codes "proto.login") name
          then m.process_login_message msg conn w
          else if equal (codes "proto.avpacket") name
          then m.process_packet msg conn w
          else ok w)
  unfolding do_message find
  do_message-messages msg conn w = rw listed (ground arith)
