-- ===== src/Tests/LogIn.antt =====
-- A login with the messages that it needs, and the stand-in for OpenSSL.
use avrouter.Prelude.{
  ℕ, ◌≡◌, refl, List, [], ◌∷◌, ◌++◌, map, Option, none, some, Bytes, All, codes, equal,
  if◌then◌else◌, ok, arith,
}
use avrouter.Serialization.{Protobuf, create_message}
use avrouter.Connection.WriteQueue.{Event, ask, Writer, idle, run}
use avrouter.Connection.Stream.{pump, ready}
use avrouter.Connection.Delivery.{stream, IsSendable}
use avrouter.ModulePrivate.{of_string, retrive_module_private}
use avrouter.Login.{
  succeed, LoginResult, login_succeed, public_key_mismatch, LoginMessage, Login, user_name_key,
  decrypt_blocks,
}
use avrouter.Login.Exchange.{IsAccepted}
use avrouter.Main.{Moudles}
use avrouter.Main.Wire.{texts_of, joined}
use avrouter.Main.LogIn.{LoginTypes, deliver_two, login-answered}
use avrouter.Tests.Login.{toy}

data AnyMessage : Type 0 where
  of_hello : Bytes → AnyMessage
  of_login : LoginMessage → AnyMessage
  of_key : Bytes → AnyMessage
  of_result : LoginResult → AnyMessage

abbrev name_of : AnyMessage → Bytes
name_of (of_hello h) = codes "proto.client_hello"
name_of (of_login l) = codes "proto.login"
name_of (of_key key) = codes "k"
name_of (of_result r) = codes "r"

abbrev result_body : LoginResult → Bytes
result_body login_succeed = 1 ∷ []
result_body public_key_mismatch = 2 ∷ []

abbrev body_of : AnyMessage → Bytes
body_of (of_hello h) = h
body_of (of_login l) = l.user_cert
body_of (of_key key) = key
body_of (of_result r) = result_body r

-- The key 5 in a block.
abbrev me : LoginMessage
me = record { user_cert = codes "me"; encryped_radom_key = 0 ∷ 5 ∷ [] }

abbrev parse_as : AnyMessage → Bytes → AnyMessage
parse_as (of_hello h) body = of_hello body
parse_as (of_login l) body = of_login (record l { user_cert = body })
parse_as (of_key key) body = of_key body
parse_as (of_result r) body = of_result login_succeed

abbrev prototype : Bytes → AnyMessage
prototype name =
    if equal name (codes "proto.client_hello")
    then of_hello []
    else if equal name (codes "proto.login")
    then of_login me
    else if equal name (codes "k")
    then of_key []
    else of_result login_succeed

abbrev four_types : Protobuf
four_types = record {
  Message = AnyMessage;
  Descriptor = Bytes;
  type_name = λ m. name_of m;
  serialize = λ m. some (body_of m);
  find_descriptor = λ name. some name;
  get_prototype = λ name. some (prototype name);
  new_message = λ m. m;
  parse = λ m body. some (parse_as m body);
}

abbrev cast_hello : AnyMessage → Option Bytes
cast_hello (of_hello h) = some h
cast_hello m = none

abbrev cast_login : AnyMessage → Option LoginMessage
cast_login (of_login l) = some l
cast_login m = none

abbrev login_types : LoginTypes four_types
login_types = record {
  ClientHello = Bytes;
  hello = λ h. of_hello h;
  login = λ l. of_login l;
  cast_hello = λ m. cast_hello m;
  cast_login = λ m. cast_login m;
  cast_hello_lem = λ h. refl;
  cast_login_lem = λ l. refl;
  hello_named = λ h. refl;
  login_named = λ l. refl;
  server_hello = λ key. of_key key;
  login_result = λ r. of_result r;
}

me-IsAccepted : IsAccepted toy me (5 ∷ []) (codes "me")
unfolding decrypt_blocks
me-IsAccepted = record {
  cert = codes "me";
  rsa = _;
  parsed = refl;
  called = refl;
  owner = refl;
  verified = λ e. omega (arith, e);
  decrypted = refl;
}

hello-IsSendable : IsSendable four_types (of_hello (codes "h"))
unfolding create_message equal
hello-IsSendable = record {
  body = codes "h";
  registered = record {
    created = of_hello [];
    serializes = refl;
    creates = refl;
    parses = refl;
    fits = omega arith;
  };
  nonempty = λ e. cc;
  small = omega arith;
}

login-IsSendable : IsSendable four_types (of_login me)
unfolding create_message equal
login-IsSendable = record {
  body = codes "me";
  registered = record {
    created = of_login me;
    serializes = refl;
    creates = refl;
    parses = refl;
    fits = omega arith;
  };
  nonempty = λ e. cc;
  small = omega arith;
}

key-IsSendable : IsSendable four_types (of_key (5 ∷ []))
unfolding create_message equal
key-IsSendable = record {
  body = 5 ∷ [];
  registered = record {
    created = of_key [];
    serializes = refl;
    creates = refl;
    parses = refl;
    fits = omega arith;
  };
  nonempty = λ e. cc;
  small = omega arith;
}

result-IsSendable : IsSendable four_types (of_result login_succeed)
unfolding create_message equal
result-IsSendable = record {
  body = 1 ∷ [];
  registered = record {
    created = of_result login_succeed;
    serializes = refl;
    creates = refl;
    parses = refl;
    fits = omega arith;
  };
  nonempty = λ e. cc;
  small = omega arith;
}

abbrev quiet : Moudles AnyMessage (Login toy)
quiet = record {
  availability_check = λ msg conn s. ok s;
  user_register = λ msg conn s. ok s;
  process_hello_message = λ msg conn s. ok s;
  process_login_message = λ msg conn s. ok s;
  process_packet = λ msg conn s. ok s;
  connection_notify = λ type conn s. ok s;
}

abbrev new : Login toy
new = record { log_state = λ c. none; infos = λ c. []; written = [] }

abbrev make_key : Bytes → Bytes × Bytes
make_key h = (5 ∷ [], 9 ∷ [])

abbrev asked : List AnyMessage
asked = of_hello (codes "h") ∷ of_login me ∷ []

abbrev answered : List AnyMessage
answered = of_key (5 ∷ []) ∷ of_result login_succeed ∷ []

login-answered_example :
    (s' : Login toy) × (calls : List (ℕ × Bytes)) × (es : List Event) × (writer : Writer) × (pump
        four_types 4
        (ready four_types [] [])
        (stream four_types asked)
      ≡ ok (ready four_types [] asked, []))
    × (deliver_two four_types login_types toy make_key quiet
          (of_hello (codes "h"))
          (of_login me)
          3
          new
        ≡ ok s')
    × (s'.log_state 3 ≡ some succeed)
    × (retrive_module_private user_name_key (s'.infos 3) ≡ of_string (codes "me"))
    × (s'.written ≡ calls)
    × All (λ c. c.0 ≡ 3) calls
    × (run idle (map ask (map texts_of calls) ++ es) ≡ ok writer)
    × (pump four_types 4 (ready four_types [] []) (joined writer.sent)
        ≡ ok (ready four_types [] answered, []))
login-answered_example =
    login-answered four_types login_types toy make_key quiet (codes "h") me (5 ∷ []) (9 ∷ [])
      (codes "me") 3 new [] [] refl (omega arith) me-IsAccepted
      (hello-IsSendable, (login-IsSendable, tt)) (key-IsSendable, (result-IsSendable, tt))
