-- ===== src/Tests/Registration.antt =====
-- A registration with the messages that it needs.
use avrouter.Prelude.{
  ℕ, zero, suc, ◌≡◌, refl, true, List, [], ◌∷◌, ◌++◌, map, Option, none, some, Bytes, All, codes,
  equal, if◌then◌else◌, ok, arith,
}
use avrouter.Prelude.Dict.{find}
use avrouter.Serialization.{Protobuf, create_message, encode}
use avrouter.Serialization.RoundTrip.{IsRegistered}
use avrouter.Connection.WriteQueue.{Event, ask, Writer, idle, run}
use avrouter.Connection.Stream.{pump, ready}
use avrouter.Connection.Delivery.{stream, IsSendable}
use avrouter.Database.{pg_escape_bytea}
use avrouter.Register.{
  Response, name_taken, register_result, register_succeed, register_succeed_pendding_cert,
  UserRegister, CaMessage, other,
}
use avrouter.Register.Csr.{CaProto, Network}
use avrouter.Register.Csr.Posts.{Sent, IsFine}
use avrouter.Router.{do_message}
use avrouter.Main.{Moudles, messages}
use avrouter.Main.Wire.{texts_of, joined}
use avrouter.Main.Registration.{RegisterType, Office, moudles, registration-answered}
use avrouter.Tests.Csr.{read_message}
use avrouter.Tests.Register.{users, users_up, trusting, bob, bob-IsSigned}

data AnyMessage : Type 0 where
  of_register : UserRegister → AnyMessage
  of_result : Response → AnyMessage
  of_ca : Bytes → Bytes → AnyMessage

abbrev name_of : AnyMessage → Bytes
name_of (of_register msg) = codes "proto.user_register"
name_of (of_result r) = codes "r"
name_of (of_ca name body) = name

abbrev result_body : Response → Option Bytes
result_body (register_result register_succeed (some cert)) = some (0 ∷ cert)
result_body (register_result register_succeed_pendding_cert none) = some (1 ∷ [])
result_body r = none

abbrev body_of : AnyMessage → Option Bytes
body_of (of_register msg) = some msg.user_name
body_of (of_result r) = result_body r
body_of (of_ca name body) = some body

abbrev parse_result : Bytes → Option AnyMessage
parse_result [] = none
parse_result (zero ∷ cert) = some (of_result (register_result register_succeed (some cert)))
parse_result (suc n ∷ rest) = some (of_result (register_result register_succeed_pendding_cert none))

abbrev parse_as : AnyMessage → Bytes → Option AnyMessage
parse_as (of_register msg) body = some (of_register (record msg { user_name = body }))
parse_as (of_result r) body = parse_result body
parse_as (of_ca name old) body = some (of_ca name body)

abbrev prototype : Bytes → AnyMessage
prototype name =
    if equal name (codes "proto.user_register")
    then of_register bob
    else if equal name (codes "r")
    then of_result name_taken
    else of_ca name []

abbrev three_types : Protobuf
three_types = record {
  Message = AnyMessage;
  Descriptor = Bytes;
  type_name = λ m. name_of m;
  serialize = λ m. body_of m;
  find_descriptor = λ name. some name;
  get_prototype = λ name. some (prototype name);
  new_message = λ m. m;
  parse = λ m body. parse_as m body;
}

abbrev cast_register : AnyMessage → Option UserRegister
cast_register (of_register msg) = some msg
cast_register m = none

abbrev register_type : RegisterType three_types
register_type = record {
  message = λ msg. of_register msg;
  cast = λ m. cast_register m;
  cast_name = λ m. none;
  cast_message = λ msg. refl;
  named = λ msg. refl;
  result = λ r. of_result r;
}

abbrev view_ca : AnyMessage → CaMessage
view_ca (of_ca name body) = read_message name body
view_ca m = other

abbrev ca_proto : CaProto three_types
ca_proto = record { csr_push = λ csr. of_ca (codes "csr") csr; view = λ m. view_ca m }

ok-IsRegistered : IsRegistered three_types (of_ca (codes "ok") (codes "k")) (codes "k")
unfolding create_message equal
ok-IsRegistered = record {
  created = of_ca (codes "ok") [];
  serializes = refl;
  creates = refl;
  parses = refl;
  fits = omega arith;
}

cert-IsRegistered : IsRegistered three_types (of_ca (codes "cert") (codes "kc")) (codes "kc")
unfolding create_message equal
cert-IsRegistered = record {
  created = of_ca (codes "cert") [];
  serializes = refl;
  creates = refl;
  parses = refl;
  fits = omega arith;
}

abbrev ok_sent : Sent three_types
ok_sent = record {
  message = of_ca (codes "ok") (codes "k");
  body = codes "k";
  registered = ok-IsRegistered;
  nonempty = λ e. cc;
  short = omega arith;
}

abbrev cert_sent : Sent three_types
cert_sent = record {
  message = of_ca (codes "cert") (codes "kc");
  body = codes "kc";
  registered = cert-IsRegistered;
  nonempty = λ e. cc;
  short = omega arith;
}

abbrev quick : Network
quick = record {
  resolves = true;
  connects = true;
  writes = λ n. true;
  received =
      encode three_types (of_ca (codes "ok") (codes "k"))
      ++ (encode three_types (of_ca (codes "cert") (codes "kc")) ++ []);
  can_read = λ i. true;
}

quick-IsFine : IsFine quick
quick-IsFine = record { resolves = refl; connects = refl; writes = λ n. refl }

bob-IsSendable : IsSendable three_types (of_register bob)
unfolding create_message equal
bob-IsSendable = record {
  body = codes "bob";
  registered = record {
    created = of_register bob;
    serializes = refl;
    creates = refl;
    parses = refl;
    fits = omega arith;
  };
  nonempty = λ e. cc;
  small = omega arith;
}

abbrev with_cert : Response
with_cert = register_result register_succeed (some (codes "c"))

abbrev without : Response
without = register_result register_succeed_pendding_cert none

cert-IsSendable : IsSendable three_types (of_result with_cert)
unfolding create_message equal
cert-IsSendable = record {
  body = 0 ∷ codes "c";
  registered = record {
    created = of_result name_taken;
    serializes = refl;
    creates = refl;
    parses = refl;
    fits = omega arith;
  };
  nonempty = λ e. cc;
  small = omega arith;
}

pending-IsSendable : IsSendable three_types (of_result without)
unfolding create_message equal
pending-IsSendable = record {
  body = 1 ∷ [];
  registered = record {
    created = of_result name_taken;
    serializes = refl;
    creates = refl;
    parses = refl;
    fits = omega arith;
  };
  nonempty = λ e. cc;
  small = omega arith;
}

abbrev nobody : Office users
nobody = record { table = []; written = [] }

abbrev quiet : Moudles AnyMessage (Office users)
quiet = record {
  availability_check = λ msg conn w. ok w;
  user_register = λ msg conn w. ok w;
  process_hello_message = λ msg conn w. ok w;
  process_login_message = λ msg conn w. ok w;
  process_packet = λ msg conn w. ok w;
  connection_notify = λ type conn w. ok w;
}

registration-answered_example :
    (w' : Office users) × (calls : List (ℕ × Bytes)) × (es : List Event) × (writer : Writer) × (pump
        three_types 2
        (ready three_types [] [])
        (stream three_types (of_register bob ∷ []))
      ≡ ok (ready three_types [] (of_register bob ∷ []), []))
    × (do_message
          (λ m. name_of m)
          (messages
            (moudles three_types register_type users trusting ca_proto quick (λ i. 0) quiet))
          (of_register bob)
          4
          nobody
        ≡ ok w')
    × ((v : Bytes)
        → find v w'.table
          ≡ (if equal (codes "bob") v then some (some (codes "c" ++ 0 ∷ [])) else none))
    × (w'.written ≡ calls)
    × All (λ c. c.0 ≡ 4) calls
    × (run idle (map ask (map texts_of calls) ++ es) ≡ ok writer)
    × (pump three_types 4 (ready three_types [] []) (joined writer.sent)
        ≡ ok (ready three_types [] (of_result without ∷ of_result with_cert ∷ []), []))
unfolding equal find pg_escape_bytea
registration-answered_example =
    registration-answered three_types register_type users trusting ca_proto quick (λ i. 0) quiet
      users_up bob bob-IsSigned ok_sent cert_sent 4 nobody [] [] [] quick-IsFine refl (λ e. cc) refl
      bob-IsSendable (pending-IsSendable, (cert-IsSendable, tt))
