-- ===== src/Tests/Relay.antt =====
-- A packet from one client to another, with packets as the only messages.
use avrouter.Prelude.{
  ◌++◌, map, ℕ, ◌≡◌, refl, Bool, true, List, [], ◌∷◌, Option, none, some, Bytes, All, codes, ok,
  arith, equal,
}
use avrouter.Prelude.Dict.{find}
use avrouter.Serialization.{Protobuf, create_message}
use avrouter.Connection.WriteQueue.{Event, ask, Writer, idle, run}
use avrouter.Connection.Stream.{pump, ready}
use avrouter.Connection.Delivery.{stream, IsSendable}
use avrouter.Forward.{Avpacket, Forward}
use avrouter.Main.{Moudles}
use avrouter.Main.Wire.{texts_of, joined}
use avrouter.Main.Relay.{PacketType, deliver_all, IsRouted, relay_lem}

-- A packet from "a" to "b".
abbrev living : ℕ → Bytes → Avpacket
living time text = record {
  src_username = codes "a";
  dest_username = codes "b";
  dest_domain = [];
  time_to_live = time;
  upper_layer_data = text;
}

abbrev parse_packet : Bytes → Option Avpacket
parse_packet [] = none
parse_packet (time ∷ text) = some (living time text)

abbrev only_packets : Protobuf
only_packets = record {
  Message = Avpacket;
  Descriptor = Bytes;
  type_name = λ m. codes "proto.avpacket";
  serialize = λ m. some (m.time_to_live ∷ m.upper_layer_data);
  find_descriptor = λ name. some name;
  get_prototype = λ name. some (living 0 []);
  new_message = λ m. m;
  parse = λ m body. parse_packet body;
}

abbrev packet_type : PacketType only_packets
packet_type = record {
  message = λ pkt. pkt;
  cast = λ m. some m;
  cast_message = λ pkt. refl;
  named = λ pkt. refl;
}

abbrev Nothing : Type 0
Nothing = Unit {0}

abbrev silent : Moudles Avpacket (Forward Nothing)
silent = record {
  availability_check = λ msg conn f. ok f;
  user_register = λ msg conn f. ok f;
  process_hello_message = λ msg conn f. ok f;
  process_login_message = λ msg conn f. ok f;
  process_packet = λ msg conn f. ok f;
  connection_notify = λ type conn f. ok f;
}

abbrev all_there : ℕ → Bool
all_there c = true

living-IsSendable : (time : ℕ) → IsSendable only_packets (living time (codes "hi"))
unfolding create_message
living-IsSendable time = record {
  body = time ∷ codes "hi";
  registered = record {
    created = living 0 [];
    serializes = refl;
    creates = refl;
    parses = refl;
    fits = omega arith;
  };
  nonempty = λ e. cc;
  small = omega arith;
}

living-IsRouted :
    IsRouted only_packets packet_type all_there silent (codes "b") (living 8 (codes "hi"))
living-IsRouted = record {
  to_user = refl;
  lives = omega arith;
  sendable = living-IsSendable 8;
  sendable_on = living-IsSendable 7;
}

abbrev known : Forward Nothing
known = record { routing_table = (codes "b", 5) ∷ []; infos = λ c. []; written = [] }

abbrev one : List Avpacket
one = living 8 (codes "hi") ∷ []

relay_lem_example :
    (f' : Forward Nothing) × (calls : List (ℕ × Bytes)) × (es : List Event) × (w : Writer) × (pump
        only_packets 2
        (ready only_packets [] [])
        (stream only_packets one)
      ≡ ok (ready only_packets [] one, []))
    × (deliver_all only_packets packet_type all_there silent one 4 known ≡ ok f')
    × (f'.written ≡ calls)
    × All (λ c. c.0 ≡ 5) calls
    × (run idle (map ask (map texts_of calls) ++ es) ≡ ok w)
    × (pump only_packets 2 (ready only_packets [] []) (joined w.sent)
        ≡ ok (ready only_packets [] (living 7 (codes "hi") ∷ []), []))
unfolding find equal
relay_lem_example =
    relay_lem only_packets packet_type all_there silent (codes "b") 5 4 one known [] [] refl refl
      (living-IsRouted, tt)
