-- ===== src/Forward/Routing.antt =====
-- What `process_packet` and `connection_notify` do to the routing table and to the connections.

use avrouter.Prelude.{
  ℕ, ◌-◌, ◌≡◌, refl, Bool, true, false, ◌&&◌, List, [], ◌∷◌, ◌++◌, append-nil, Option, none, some,
  Bytes, Run, ok, fault, null_pointer, if◌then◌else◌, ltb, equal, equal_iff, arith,
}
use avrouter.Prelude.Dict.{find, find-insert}
use avrouter.Forward.{Avpacket, Forward, learn, send, forward_to, process_packet}

-- The route that the table has, or the sender's connection `c` for a packet to itself.
abbrev pub or_sender : Option ℕ → Bool → ℕ → Option ℕ
or_sender (some target) to_itself c = some target
or_sender none true c = some c
or_sender none false c = none

-- What is written for a packet with a route, given `encode` and the connections that are there.
abbrev pub sent_to : (Avpacket → Bytes) → (ℕ → Bool) → Avpacket → ℕ → List (ℕ × Bytes)
sent_to encode alive pkt target =
    if alive target && ltb 1 pkt.time_to_live
    then (target, encode (record pkt { time_to_live = pkt.time_to_live - 1 })) ∷ []
    else []

module _ {Cert : Type 0} where
  abbrev pub route : Avpacket → ℕ → Forward Cert → Option ℕ
  route pkt c f =
      or_sender (find pkt.dest_username f.routing_table) (equal pkt.src_username pkt.dest_username)
        c

  find-learn :
      (pkt : Avpacket) (c : ℕ) (f : Forward Cert)
      → find pkt.dest_username (learn pkt c f).routing_table ≡ route pkt c f
  unfolding learn
  find-learn pkt c f = ground (
    arith,
    find-insert pkt.src_username pkt.dest_username c f.routing_table,
    equal_iff pkt.src_username pkt.dest_username,
  )

  pub written-learn :
      (pkt : Avpacket) (c : ℕ) (f : Forward Cert) → (learn pkt c f).written ≡ f.written
  unfolding learn
  written-learn pkt c f = ground arith

  module _ (encode : Avpacket → Bytes) (alive : ℕ → Bool) where
    abbrev pub outcome : Option ℕ → Avpacket → Forward Cert → Run (Forward Cert)
    outcome none pkt f = fault null_pointer
    outcome (some target) pkt f =
        ok (record f { written = f.written ++ sent_to encode alive pkt target })

    forward_to_lem :
        (target : Option ℕ) (pkt : Avpacket) (f : Forward Cert)
        → forward_to encode alive target pkt f ≡ outcome target pkt f
    unfolding forward_to send
    forward_to_lem none pkt f = refl
    forward_to_lem (some target) pkt f = ground (arith, append-nil f.written)

    -- A packet is written once, with one less to live, to the connection that the table has for its
    -- destination, if that is still there and the packet has more than 1 to live, and else to
    -- nobody. A sender is known to the table by then, and so gets its own packets back. If the
    -- table has no connection for the destination, `lock` is called on the end of the table.
    pub process_packet_lem :
        (pkt : Avpacket) (c : ℕ) (f : Forward Cert)
        → process_packet encode alive (some pkt) c f ≡ outcome (route pkt c f) pkt (learn pkt c f)
    unfolding process_packet
    process_packet_lem pkt c f =
        rw (find-learn pkt c f) (forward_to_lem (route pkt c f) pkt (learn pkt c f))
