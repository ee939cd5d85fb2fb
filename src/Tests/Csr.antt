-- ===== src/Tests/Csr.antt =====
-- Requests to an authority whose messages are those of the stand-in for protobuf.
use avrouter.Prelude.{
  ◌≡◌, refl, true, false, All, [], ◌∷◌, ◌++◌, Bytes, codes, ◌≤◌, equal, if◌then◌else◌, ok, fault,
  runtime_error, take, drop, length, arith, be32, read_be32,
}
use avrouter.Serialization.{encode, create_message, decode}
use avrouter.Serialization.RoundTrip.{IsRegistered}
use avrouter.Register.{
  CaMessage, push_ok, cert_push, other, push_ready, cert_posts, async_read_protobuf_message,
}
use avrouter.Register.Csr.{
  CaProto, Network, poll_writes, async_send_csr_coro, await_push, read_cert,
}
use avrouter.Register.Csr.Posts.{
  Sent, IsFine, async_send_csr_coro-answered, async_send_csr_coro-writes,
}
use avrouter.Register.Csr.Users.{ending}
use avrouter.Tests.Serialization.{plain}
use avrouter.Tests.Register.{users, users_up, trusting, bob, bob-IsSigned}

abbrev pub read_message : Bytes → Bytes → CaMessage
read_message name body =
    if equal name (codes "ok")
    then push_ok (body ∷ [])
    else if equal name (codes "cert")
    then cert_push (take 1 body) (drop 1 body)
    else other

abbrev ca_proto : CaProto plain
ca_proto = record { csr_push = λ csr. (codes "csr", csr); view = λ m. read_message m.0 m.1 }

abbrev ok_message : plain.Message
ok_message = (codes "ok", codes "k")

abbrev cert_message : plain.Message
cert_message = (codes "cert", codes "kc")

-- The certificate can be read after two turns.
abbrev swift : Network
swift = record {
  resolves = true;
  connects = true;
  writes = λ n. true;
  received = encode plain ok_message ++ (encode plain cert_message ++ []);
  can_read = λ i. if equal (i ∷ []) (2 ∷ []) then true else false;
}

-- The authority cannot be connected to.
abbrev cut_off : Network
cut_off = record swift { connects = false }

swift_run : async_send_csr_coro plain ca_proto [] (codes "k") swift ≡ (
  encode plain (codes "csr", [])
      ∷ encode plain (codes "csr", [])
      ∷ encode plain (codes "csr", [])
      ∷ [],
  ok ((0, codes "c") ∷ (1, []) ∷ []),
)
unfolding async_send_csr_coro await_push read_cert poll_writes async_read_protobuf_message encode
    decode create_message push_ready cert_posts equal be32 read_be32
swift_run = refl

ok-IsRegistered : IsRegistered plain ok_message (codes "k")
unfolding create_message
ok-IsRegistered = record {
  created = (codes "ok", []);
  serializes = refl;
  creates = refl;
  parses = refl;
  fits = omega arith;
}

abbrev ok_sent : Sent plain
ok_sent = record {
  message = ok_message;
  body = codes "k";
  registered = ok-IsRegistered;
  nonempty = λ e. cc;
  short = omega arith;
}

cert-IsRegistered : IsRegistered plain cert_message (codes "kc")
unfolding create_message
cert-IsRegistered = record {
  created = (codes "cert", []);
  serializes = refl;
  creates = refl;
  parses = refl;
  fits = omega arith;
}

abbrev cert_sent : Sent plain
cert_sent = record {
  message = cert_message;
  body = codes "kc";
  registered = cert-IsRegistered;
  nonempty = λ e. cc;
  short = omega arith;
}

swift-IsFine : IsFine swift
swift-IsFine = record { resolves = refl; connects = refl; writes = λ n. refl }

async_send_csr_coro-answered_example :
    (async_send_csr_coro plain ca_proto [] (codes "k") swift).1 ≡ ok ((0, codes "c") ∷ (1, []) ∷ [])
unfolding equal
async_send_csr_coro-answered_example =
    async_send_csr_coro-answered plain ca_proto [] (codes "k") swift ok_sent cert_sent []
      swift-IsFine refl

async_send_csr_coro-writes_example :
    All
      (λ packet. packet ≡ encode plain (codes "csr", []))
      (async_send_csr_coro plain ca_proto [] (codes "k") swift).0
    × (length ((async_send_csr_coro plain ca_proto [] (codes "k") swift).0) ≤ 11)
async_send_csr_coro-writes_example = async_send_csr_coro-writes plain ca_proto [] (codes "k") swift

-- The authority cannot be reached: the client is told nothing.
cut_off_run :
    ending plain ca_proto cut_off (λ i. 0) users users_up trusting bob [] bob-IsSigned
    ≡ fault runtime_error
unfolding async_send_csr_coro
cut_off_run = refl
