-- ===== src/Main/Relay.antt =====
-- Packets from one client to another, through the server that `main` sets up.
use avrouter.Prelude.{
  ℕ, ◌*◌, ◌-◌, ◌<◌, ◌≡◌, refl, sym, ap, ◌∙◌, Bool, true, List, [], ◌∷◌, ◌++◌, append_assoc,
  append-nil, map, Option, some, Bytes, All, codes, equal, equal_iff, length, ltb, Run, ok, ◌>>=◌,
  arith,
}
use avrouter.Prelude.Dict.{find, find-insert}
use avrouter.Serialization.{Protobuf, encode}
use avrouter.Connection.WriteQueue.{Event, ask, Writer, idle, run}
use avrouter.Connection.Stream.{pump, ready}
use avrouter.Connection.Delivery.{stream, IsSendable}
use avrouter.Forward.{Avpacket, Forward, learn, process_packet}
use avrouter.Forward.Routing.{written-learn, process_packet_lem}
use avrouter.Router.{do_message, MessageCallback}
use avrouter.Main.{Moudles, messages}
use avrouter.Main.Wire.{texts_of, joined, pump-map, call, calls-target, calls-read}
use avrouter.Main.Dispatch.{do_message-messages}

-- With less to live.
abbrev pub aged : Avpacket → Avpacket
aged pkt = record pkt { time_to_live = pkt.time_to_live - 1 }

-- The messages that are packets: `dynamic_cast`, and the type's name.
pub record PacketType (pb : Protobuf) : Type 0 where
  pub message : Avpacket → pb.Message
  pub cast : pb.Message → Option Avpacket
  pub cast_message : (pkt : Avpacket) → cast (message pkt) ≡ some pkt
  pub named : (pkt : Avpacket) → pb.type_name (message pkt) ≡ codes "proto.avpacket"

module _ {Cert : Type 0} (pb : Protobuf) (packets : PacketType pb) (alive : ℕ → Bool)
    (others : Moudles pb.Message (Forward Cert)) where
  -- The module as `main` registers it.
  abbrev forwarding : MessageCallback pb.Message (Forward Cert)
  forwarding msg conn f =
      process_packet (λ pkt. encode pb (packets.message pkt)) alive (packets.cast msg) conn f

  abbrev pub moudles : Moudles pb.Message (Forward Cert)
  moudles = record others { process_packet = forwarding }

  -- `do_message` of each message that a connection delivers.
  unfoldable pub deliver_all : List pb.Message → ℕ → Forward Cert → Run (Forward Cert)
  deliver_all [] conn f = ok f
  deliver_all (m ∷ ms) conn f =
      do_message pb.type_name (messages moudles) m conn f >>= λ f'. deliver_all ms conn f'

  forwarded :
      (pkt : Avpacket) (conn : ℕ) (f : Forward Cert)
      → do_message pb.type_name (messages moudles) (packets.message pkt) conn f
        ≡ process_packet (λ p. encode pb (packets.message p)) alive (some pkt) conn f
  unfolding equal
  forwarded pkt conn f =
      do_message-messages pb.type_name moudles (packets.message pkt) conn f
      ∙ rw (packets.named pkt, packets.cast_message pkt)

  -- A packet for a user whose connection is known and there, which may go on.
  pub record IsRouted (user : Bytes) (pkt : Avpacket) : Type 0 where
    pub to_user : pkt.dest_username ≡ user
    pub lives : 1 < pkt.time_to_live
    pub sendable : IsSendable pb (packets.message pkt)
    pub sendable_on : IsSendable pb (packets.message (aged pkt))

  find-learn-known :
      (user : Bytes) (target : ℕ) (pkt : Avpacket) (conn : ℕ) (f : Forward Cert)
      → find user f.routing_table ≡ some target
      → find user (learn pkt conn f).routing_table ≡ some target
  unfolding learn
  find-learn-known user target pkt conn f h = ground (
    arith,
    h,
    find-insert pkt.src_username user conn f.routing_table,
    equal_iff pkt.src_username user,
  )

  -- What is sent on of a packet.
  abbrev sent_on : Avpacket → pb.Message
  sent_on pkt = packets.message (aged pkt)

  abbrev written_to : ℕ → Avpacket → ℕ × Bytes
  written_to target = call pb sent_on target

  process-routed :
      (user : Bytes) (target : ℕ) (pkt : Avpacket) (conn : ℕ) (f : Forward Cert)
      → find user f.routing_table ≡ some target
      → alive target ≡ true
      → pkt.dest_username ≡ user
      → 1 < pkt.time_to_live
      → process_packet (λ p. encode pb (packets.message p)) alive (some pkt) conn f
        ≡ ok (record (learn pkt conn f) { written = f.written ++ written_to target pkt ∷ [] })
  process-routed user target pkt conn f h a u l =
      let lives : ltb 1 pkt.time_to_live ≡ true = ground (arith, l) in
      let known : find pkt.dest_username f.routing_table ≡ some target =
        ap (λ n. find n f.routing_table) u ∙ h in
      process_packet_lem (λ p. encode pb (packets.message p)) alive pkt conn f
      ∙ rw (known, a, lives, written-learn pkt conn f)

  -- What is written for the packets, and what has to be so before and after each.
  deliver-routed :
      (user : Bytes) (target conn : ℕ) (pkts : List Avpacket) (f : Forward Cert)
      → find user f.routing_table ≡ some target
      → alive target ≡ true
      → All (IsRouted user) pkts
      → (f' : Forward Cert) × (deliver_all (map packets.message pkts) conn f ≡ ok f')
        × (f'.written ≡ f.written ++ map (written_to target) pkts)
  unfolding deliver_all
  deliver-routed user target conn [] f h a v = (f, refl, sym (append-nil f.written))
  deliver-routed user target conn (pkt ∷ pkts) f h a (v, vs) =
      let f1 : Forward Cert = record (learn pkt conn f) {
        written = f.written ++ written_to target pkt ∷ [];
      } in
      let first =
        forwarded pkt conn f ∙ process-routed user target pkt conn f h a v.to_user v.lives in
      let (f2, later, all) =
        deliver-routed user target conn pkts f1 (find-learn-known user target pkt conn f h) a vs in
      (
        f2,
        rw first later,
        all ∙ append_assoc f.written (written_to target pkt ∷ []) (map (written_to target) pkts),
      )

  map-IsSendable :
      (user : Bytes) (pkts : List Avpacket)
      → All (IsRouted user) pkts
      → All (IsSendable pb) (map packets.message pkts)
        × All (IsSendable pb) (map (λ p. packets.message (aged p)) pkts)
  map-IsSendable user [] v = (tt, tt)
  map-IsSendable user (pkt ∷ pkts) (v, vs) =
      let (here, on) = map-IsSendable user pkts vs in ((v.sendable, here), (v.sendable_on, on))

  -- Packets for one user, whose connection the table knows and is there, with more than 1 to live
  -- each, come as the bytes that their sender's `encode` makes: the sender's connection delivers
  -- them to the router as they were, the router hands each to the forwarding, and this calls
  -- `write_msg` once for each, on the user's connection and on no other. When a new connection is
  -- asked for these writes, the loop can run so that no handler faults and all of them are sent;
  -- and whoever reads the bytes sent as this code does gets the same packets in the same order,
  -- each with one less to live.
  pub relay_lem :
      (user : Bytes) (target conn : ℕ) (pkts : List Avpacket) (f : Forward Cert)
      (queue queue' : List Bytes)
      → find user f.routing_table ≡ some target
      → alive target ≡ true
      → All (IsRouted user) pkts
      → (f' : Forward Cert) × (calls : List (ℕ × Bytes)) × (es : List Event) × (w : Writer) × (pump
            pb
            (2 * length pkts)
            (ready pb queue [])
            (stream pb (map packets.message pkts))
          ≡ ok (ready pb queue (map packets.message pkts), []))
        × (deliver_all (map packets.message pkts) conn f ≡ ok f')
        × (f'.written ≡ f.written ++ calls)
        × All (λ c. c.0 ≡ target) calls
        × (run idle (map ask (map texts_of calls) ++ es) ≡ ok w)
        × (pump pb (2 * length pkts) (ready pb queue' []) (joined w.sent)
            ≡ ok (ready pb queue' (map (λ p. packets.message (aged p)) pkts), []))
  relay_lem user target conn pkts f queue queue' h a v =
      let (f', delivered, written) = deliver-routed user target conn pkts f h a v in
      let (here, on) = map-IsSendable user pkts v in
      let calls = map (written_to target) pkts in
      let (es, w, ran, read) = calls-read pb sent_on target pkts queue' on in
      (
        f',
        calls,
        es,
        w,
        pump-map pb packets.message pkts queue here,
        delivered,
        written,
        calls-target pb sent_on target pkts,
        ran,
        read,
      )
