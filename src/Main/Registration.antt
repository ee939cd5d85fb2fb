-- ===== src/Main/Registration.antt =====
-- A registration through the server that `main` sets up, from the bytes that a client sends to the
-- bytes that it gets. The handlers of the authority run to their end before the next message of the
-- connection is handled; the completions of the database are run between them as `turns` says.
use avrouter.Prelude.{
  ℕ, ◌*◌, ◌≡◌, ◌≢◌, refl, ap, ◌∙◌, List, [], ◌∷◌, ◌++◌, map, Option, none, some, Bytes, All, codes,
  equal, length, if◌then◌else◌, ok, ◌>>=◌,
}
use avrouter.Serialization.{Protobuf, encode}
use avrouter.Connection.WriteQueue.{Event, ask, Writer, idle, run}
use avrouter.Connection.Stream.{pump, ready}
use avrouter.Connection.Delivery.{stream, IsSendable}
use avrouter.Database.{Soci}
use avrouter.Register.{Response, UserRegister, CsrCheck, CaAnswers, check_name, user_register}
use avrouter.Register.Outcome.{
  IsUp, IsSigned, Verdict, verdict, posts_of, answers, certified, register_posted,
}
use avrouter.Register.Csr.{CaProto, Network, posts_made, async_send_csr}
use avrouter.Register.Csr.Posts.{Sent, IsFine, async_send_csr_coro-answered}
use avrouter.Router.{do_message, MessageCallback}
use avrouter.Main.{Moudles, messages}
use avrouter.Main.Wire.{texts_of, joined, pump-map, call, calls-target, calls-read}
use avrouter.Main.Dispatch.{do_message-messages}

-- The messages of the registration: `dynamic_cast`, the type's name, and the answers.
pub record RegisterType (pb : Protobuf) : Type 0 where
  pub message : UserRegister → pb.Message
  pub cast : pb.Message → Option UserRegister
  pub cast_name : pb.Message → Option Bytes
  pub cast_message : (msg : UserRegister) → cast (message msg) ≡ some msg
  pub named : (msg : UserRegister) → pb.type_name (message msg) ≡ codes "proto.user_register"
  pub result : Response → pb.Message

-- The table of users, and the calls of `write_msg`, the oldest first.
pub record Office (soci : Soci) : Type 0 where
  pub table : soci.Table
  pub written : List (ℕ × Bytes)

module _ (pb : Protobuf) (types : RegisterType pb) (soci : Soci) (check : CsrCheck)
    (proto : CaProto pb) (net : Network) (turns : ℕ → ℕ)
    (others : Moudles pb.Message (Office soci)) where
  -- `proto_write_user_register_response` of each answer, and the answer of `availability_check`.
  unfoldable pub write_responses : ℕ → List Response × soci.Table → Office soci → Office soci
  write_responses conn (responses, table) w = record {
    table = table;
    written = w.written ++ map (call pb types.result conn) responses;
  }

  -- The operations as `main` registers them.
  abbrev registering : MessageCallback pb.Message (Office soci)
  registering msg conn w =
      (user_register soci check (async_send_csr pb proto net) turns (types.cast msg) w.table
        >>= λ r. ok (write_responses conn r w))

  abbrev checking : MessageCallback pb.Message (Office soci)
  checking msg conn w =
      ok (write_responses conn (check_name soci (types.cast_name msg) w.table, w.table) w)

  abbrev pub moudles : Moudles pb.Message (Office soci)
  moudles = record others { user_register = registering; availability_check = checking }

  registered :
      (msg : UserRegister) (conn : ℕ) (w : Office soci)
      → do_message pb.type_name (messages moudles) (types.message msg) conn w ≡ (
          user_register soci check (async_send_csr pb proto net) turns (some msg) w.table >>= λ r.
          ok (write_responses conn r w))
  unfolding equal
  registered msg conn w =
      do_message-messages pb.type_name moudles (types.message msg) conn w
      ∙ rw (types.named msg, types.cast_message msg)

  -- What the authority answers with two messages.
  abbrev pub two_answers : Sent pb → Sent pb → CaAnswers
  two_answers pushed pulled = record {
    pushed = some (proto.view pushed.message);
    can_read = net.can_read;
    pulled = some (proto.view pulled.message);
  }

  module _ (up : IsUp soci) (msg : UserRegister) (signed : IsSigned check msg)
      (pushed pulled : Sent pb) where
    -- What the authority makes of this registration.
    abbrev pub outcome : Verdict
    outcome = verdict (check.sha1 msg.rsa_pubkey) (two_answers pushed pulled)

    posts :
        (rest : Bytes)
        → IsFine net
        → net.received ≡ encode pb pushed.message ++ (encode pb pulled.message ++ rest)
        → async_send_csr pb proto net (check.pem signed.req) (check.sha1 msg.rsa_pubkey)
          ≡ posts_of outcome
    unfolding async_send_csr posts_made
    posts rest fine received = ap posts_made (
        async_send_csr_coro-answered pb proto (check.pem signed.req) (check.sha1 msg.rsa_pubkey) net
          pushed pulled rest fine received)

    -- A client sends a registration, signed by its key, for a name that no user has, with the table
    -- up and a network on which the authority sends two messages: the connection delivers the
    -- message to the router as it was, the router hands it to the registration, which ends in the
    -- answers and the table that belong to what the authority makes of it, and writes each answer
    -- to the client's connection and nothing else. Of the two answers that come with a certificate
    -- the one without it is first, unless the database runs its completion before the second post.
    -- When a new connection is asked for these writes, the loop can run so that no handler faults
    -- and all of them are sent; and the client, reading as this code does, gets these answers in
    -- their order.
    pub registration-answered :
        (conn : ℕ) (w : Office soci) (rest : Bytes) (queue queue' : List Bytes)
        → IsFine net
        → net.received ≡ encode pb pushed.message ++ (encode pb pulled.message ++ rest)
        → msg.user_name ≢ []
        → up.view w.table msg.user_name ≡ none
        → IsSendable pb (types.message msg)
        → All (IsSendable pb) (map types.result (answers turns outcome))
        → (w' : Office soci) × (calls : List (ℕ × Bytes)) × (es : List Event) × (writer : Writer)
          × (pump pb 2 (ready pb queue []) (stream pb (types.message msg ∷ []))
              ≡ ok (ready pb queue (types.message msg ∷ []), []))
          × (do_message pb.type_name (messages moudles) (types.message msg) conn w ≡ ok w')
          × ((v : Bytes)
              → up.view w'.table v
                ≡ (if equal msg.user_name v then certified soci up outcome else up.view w.table v))
          × (w'.written ≡ w.written ++ calls)
          × All (λ c. c.0 ≡ conn) calls
          × (run idle (map ask (map texts_of calls) ++ es) ≡ ok writer)
          × (pump pb (2 * length (answers turns outcome)) (ready pb queue' []) (joined writer.sent)
              ≡ ok (ready pb queue' (map types.result (answers turns outcome)), []))
    unfolding write_responses
    registration-answered conn w rest queue queue' fine received name free sendable results =
        let send = async_send_csr pb proto net in
        let (t', sent, users) =
          register_posted soci up check msg w.table signed name send turns outcome
            (posts rest fine received) free in
        let rs = answers turns outcome in
        let (es, writer, ran, read) = calls-read pb types.result conn rs queue' results in
        (
          write_responses conn (rs, t') w,
          map (call pb types.result conn) rs,
          es,
          writer,
          pump-map pb types.message (msg ∷ []) queue (sendable, tt),
          registered msg conn w ∙ ap (λ m. m >>= λ r. ok (write_responses conn r w)) sent,
          users,
          refl,
          calls-target pb types.result conn rs,
          ran,
          read,
        )
