-- ===== src/Forward.antt =====
-- src/forward_moudle.cpp: the forwarding of packets by a routing table from user names to
-- connections.
pub mod Routing
pub mod Owner
use avrouter.Prelude.{
  ℕ, ◌+◌, ◌-◌, Bool, true, false, not, ◌&&◌, List, [], ◌∷◌, ◌++◌, Option, none, some, Bytes, codes,
  Run, ok, fault, null_pointer, bad_any_cast, ◌>>=◌, if◌then◌else◌, ltb, ◌==◌,
}
use avrouter.Prelude.Dict.{Dict, find, insert, erase}
use avrouter.ModulePrivate.{
  Any, of_string, cast_string, retrive_module_private, after_retrive, store_module_private,
}

-- `proto::avpacket`, as far as the code reads it: the two addresses, the time to live, and the
-- rest.
pub record Avpacket : Type 0 where
  pub src_username : Bytes
  pub dest_username : Bytes
  pub dest_domain : Bytes
  pub time_to_live : ℕ
  pub upper_layer_data : Bytes

-- The table holds weak pointers, here numbers of connections. `infos` is what every connection
-- keeps for the modules, `written` the calls of `write_msg`, the oldest first.
pub record Forward (Cert : Type 0) : Type 0 where
  pub routing_table : Dict ℕ
  pub infos : ℕ → Dict (Any Cert)
  pub written : List (ℕ × Bytes)

abbrev pub username_key : Bytes
username_key = codes "username"

-- Connection `c` with these infos, the others as they were.
abbrev pub set_infos : {V : Type 0} → ℕ → V → (ℕ → V) → ℕ → V
set_infos c value infos d = if c == d then value else infos d

module _ {Cert : Type 0} where
  -- What the cast of the connection's "username" allows: a `bad_any_cast` is caught.
  erase_route : Run Bytes → Forward Cert → Forward Cert
  erase_route (ok username) f = record f { routing_table = erase username f.routing_table }
  erase_route (fault why) f = f

  unfoldable pub connection_notify : ℕ → ℕ → Forward Cert → Forward Cert
  unfolding erase_route
  connection_notify type c f =
      let username = retrive_module_private username_key (f.infos c) in
      let retrived = record f {
        infos = set_infos c (after_retrive username_key (f.infos c)) f.infos;
      } in
      if type == 0 then f else erase_route (cast_string username) retrived

  -- The update of the routing table by the sender of a packet.
  unfoldable pub learn : Avpacket → ℕ → Forward Cert → Forward Cert
  learn pkt c f = elim (find pkt.src_username f.routing_table) [
    | some _ ↦ f
    | none ↦ record f {
      routing_table = insert pkt.src_username c f.routing_table;
      infos =
          set_infos c (store_module_private username_key (of_string pkt.src_username) (f.infos c))
            f.infos;
    }
  ]

  -- `encode` of a packet, and whether the connection of a number is still there.
  module _ (encode : Avpacket → Bytes) (alive : ℕ → Bool) where
    send : Avpacket → ℕ → Forward Cert → Forward Cert
    send pkt target f =
        if ltb 1 pkt.time_to_live
        then record f {
          written =
              f.written
              ++ (target, encode (record pkt { time_to_live = pkt.time_to_live - 1 })) ∷ [];
        }
        else f

    -- `lock` is called on what `find` gives before that is compared with `end()`.
    forward_to : Option ℕ → Avpacket → Forward Cert → Run (Forward Cert)
    unfolding send
    forward_to none pkt f = fault null_pointer
    forward_to (some target) pkt f = ok (if alive target then send pkt target f else f)

    -- `pkt` is what `dynamic_cast` gives; the null pointer is read from.
    unfoldable pub process_packet : Option Avpacket → ℕ → Forward Cert → Run (Forward Cert)
    unfolding forward_to
    process_packet none c f = fault null_pointer
    process_packet (some pkt) c f =
        let learned = learn pkt c f in
        forward_to (find pkt.dest_username learned.routing_table) pkt learned
