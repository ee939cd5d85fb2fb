-- ===== src/Main/LogIn.antt =====
-- A login through the server that `main` sets up, from the bytes that a client sends to the bytes
-- that it gets.
use avrouter.Prelude.{
  ℕ, ◌≤◌, ◌≡◌, ap, ◌∙◌, List, [], ◌∷◌, ◌++◌, append_assoc, map, Option, some, Bytes, All, codes,
  equal, length, Run, ok, ◌>>=◌,
}
use avrouter.Serialization.{Protobuf, encode}
use avrouter.Connection.WriteQueue.{Event, ask, Writer, idle, run}
use avrouter.Connection.Stream.{pump, ready}
use avrouter.Connection.Delivery.{stream, IsSendable, pump-stream}
use avrouter.ModulePrivate.{of_string, retrive_module_private}
use avrouter.Login.{
  Crypto, succeed, LoginResult, login_succeed, LoginMessage, Login, user_name_key,
  process_login_message, process_hello_message,
}
use avrouter.Login.Exchange.{IsAccepted, hello_lem, login_lem}
use avrouter.Router.{do_message, MessageCallback}
use avrouter.Main.{Moudles, messages}
use avrouter.Main.Wire.{texts_of, joined, call, calls-target, calls-read}
use avrouter.Main.Dispatch.{do_message-messages}

-- The messages of the login: `dynamic_cast`, the types' names, and the answers.
pub record LoginTypes (pb : Protobuf) : Type 1 where
  pub ClientHello : Type 0
  pub hello : ClientHello → pb.Message
  pub login : LoginMessage → pb.Message
  pub cast_hello : pb.Message → Option ClientHello
  pub cast_login : pb.Message → Option LoginMessage
  pub cast_hello_lem : (h : ClientHello) → cast_hello (hello h) ≡ some h
  pub cast_login_lem : (l : LoginMessage) → cast_login (login l) ≡ some l
  pub hello_named : (h : ClientHello) → pb.type_name (hello h) ≡ codes "proto.client_hello"
  pub login_named : (l : LoginMessage) → pb.type_name (login l) ≡ codes "proto.login"
  pub server_hello : Bytes → pb.Message
  pub login_result : LoginResult → pb.Message

module _ (pb : Protobuf) (types : LoginTypes pb) (ssl : Crypto)
    (exchange : types.ClientHello → Bytes × Bytes) (others : Moudles pb.Message (Login ssl)) where
  -- The operations as `main` registers them.
  abbrev greeting : MessageCallback pb.Message (Login ssl)
  greeting msg conn s =
      process_hello_message ssl types.ClientHello (λ key. encode pb (types.server_hello key))
        (types.cast_hello msg) exchange conn s

  abbrev logging_in : MessageCallback pb.Message (Login ssl)
  logging_in msg conn s =
      process_login_message ssl (λ r. encode pb (types.login_result r)) (types.cast_login msg) conn
        s

  abbrev pub moudles : Moudles pb.Message (Login ssl)
  moudles = record others { process_hello_message = greeting; process_login_message = logging_in }

  -- `do_message` of two messages, one after the other.
  abbrev pub deliver_two : pb.Message → pb.Message → ℕ → Login ssl → Run (Login ssl)
  deliver_two m n conn s = do_message pb.type_name (messages moudles) m conn s >>= λ s'.
      do_message pb.type_name (messages moudles) n conn s'

  greeted :
      (h : types.ClientHello) (conn : ℕ) (s : Login ssl)
      → do_message pb.type_name (messages moudles) (types.hello h) conn s
        ≡ greeting (types.hello h) conn s
  unfolding equal
  greeted h conn s =
      do_message-messages pb.type_name moudles (types.hello h) conn s ∙ rw (types.hello_named h)

  logs_in :
      (l : LoginMessage) (conn : ℕ) (s : Login ssl)
      → do_message pb.type_name (messages moudles) (types.login l) conn s
        ≡ logging_in (types.login l) conn s
  unfolding equal
  logs_in l conn s =
      do_message-messages pb.type_name moudles (types.login l) conn s ∙ rw (types.login_named l)

  -- A client sends a hello, for which OpenSSL makes a key of at most 512 bytes, and then a login
  -- with that key encrypted by the owner of a certificate that OpenSSL reads and accepts: the
  -- connection delivers both messages to the router as they were, the router hands them to the
  -- login, after which the connection has the status of a login that succeeded and the name of the
  -- certificate, and the key and the result are written to this connection and nothing else. When a
  -- new connection is asked for these writes, the loop can run so that no handler faults and both
  -- are sent; and the client, reading as this code does, gets the key and then LOGIN_SUCCEED.
  pub login-answered :
      (h : types.ClientHello) (l : LoginMessage) (key shared name : Bytes) (conn : ℕ)
      (s : Login ssl) (queue queue' : List Bytes)
      → exchange h ≡ (key, shared)
      → length key ≤ 512
      → IsAccepted ssl l key name
      → All (IsSendable pb) (types.hello h ∷ types.login l ∷ [])
      → All (IsSendable pb) (types.server_hello key ∷ types.login_result login_succeed ∷ [])
      → (s' : Login ssl) × (calls : List (ℕ × Bytes)) × (es : List Event) × (writer : Writer)
        × (pump pb 4 (ready pb queue []) (stream pb (types.hello h ∷ types.login l ∷ []))
            ≡ ok (ready pb queue (types.hello h ∷ types.login l ∷ []), []))
        × (deliver_two (types.hello h) (types.login l) conn s ≡ ok s')
        × (s'.log_state conn ≡ some succeed)
        × (retrive_module_private user_name_key (s'.infos conn) ≡ of_string name)
        × (s'.written ≡ s.written ++ calls)
        × All (λ c. c.0 ≡ conn) calls
        × (run idle (map ask (map texts_of calls) ++ es) ≡ ok writer)
        × (pump pb 4 (ready pb queue' []) (joined writer.sent)
            ≡ ok (
              ready pb queue' (types.server_hello key ∷ types.login_result login_succeed ∷ []),
              [],
            ))
  login-answered h l key shared name conn s queue queue' made short accepted comes goes =
      let encode_hello = λ (k : Bytes). encode pb (types.server_hello k) in
      let encode_result = λ (r : LoginResult). encode pb (types.login_result r) in
      let (s1, ran1, status1, key1, written1) =
        hello_lem ssl types.ClientHello encode_hello h exchange conn s key shared made short in
      let (s2, ran2, status2, name2, written2) =
        login_lem ssl encode_result l conn s1 key name accepted status1 key1 in
      let answers = types.server_hello key ∷ types.login_result login_succeed ∷ [] in
      let (es, writer, sent, read) = calls-read pb (λ m. m) conn answers queue' goes in
      (
        s2,
        map (call pb (λ m. m) conn) answers,
        es,
        writer,
        pump-stream pb queue [] (types.hello h ∷ types.login l ∷ []) comes,
        rw
            (
              greeted h conn s,
              types.cast_hello_lem h,
              ran1,
              logs_in l conn s1,
              types.cast_login_lem l,
            )
            ran2,
        status2,
        name2,
        written2
            ∙ ap (λ w. w ++ (conn, encode_result login_succeed) ∷ []) written1
            ∙ append_assoc s.written ((conn, encode_hello key) ∷ [])
                ((conn, encode_result login_succeed) ∷ []),
        calls-target pb (λ m. m) conn answers,
        sent,
        read,
      )
