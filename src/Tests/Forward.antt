-- ===== src/Tests/Forward.antt =====
-- Two users and their packets.
use avrouter.Prelude.{
  ℕ, ◌≡◌, ◌≢◌, refl, Bool, true, List, [], ◌∷◌, some, Bytes, codes, Run, ok, fault, null_pointer,
  arith, equal,
}
use avrouter.Prelude.Dict.{find, insert, assign, erase}
use avrouter.ModulePrivate.{retrive_module_private, after_retrive, store_module_private}
use avrouter.Forward.{Avpacket, Forward, connection_notify, learn, process_packet}
use avrouter.Forward.Routing.{process_packet_lem}
use avrouter.Forward.Owner.{Call, packet, notice, new_forward, step, run, run_removes}

abbrev Nobody : Type 0
Nobody = Unit {0}

abbrev from_to : Bytes → Bytes → Avpacket
from_to src dest = record {
  src_username = src;
  dest_username = dest;
  dest_domain = codes "avplayer.org";
  time_to_live = 8;
  upper_layer_data = codes "hi";
}

abbrev show : Avpacket → Bytes
show pkt = pkt.time_to_live ∷ pkt.upper_layer_data

abbrev all_there : ℕ → Bool
all_there c = true

-- A packet for a user that nobody has seen.
process_packet_lem_example :
    process_packet {Cert = Nobody} show all_there
      (some (from_to (codes "a") (codes "b")))
      1
      new_forward
    ≡ fault null_pointer
unfolding find equal
process_packet_lem_example =
    process_packet_lem {Cert = Nobody} show all_there (from_to (codes "a") (codes "b")) 1
      new_forward

abbrev names : ℕ → Bytes
names c = c ∷ []

abbrev hello_both : List Call
hello_both =
    packet all_there (from_to (1 ∷ []) (1 ∷ [])) 1
    ∷ packet all_there (from_to (2 ∷ []) (1 ∷ [])) 2
    ∷ []

abbrev state_of : Run (Forward Nobody) → Forward Nobody
state_of (ok f) = f
state_of (fault why) = new_forward

run-hello_both : run show hello_both new_forward ≡ ok (state_of (run show hello_both new_forward))
unfolding run step process_packet learn find insert equal
run-hello_both = refl

run_removes_example :
    ((u : Bytes) (d : ℕ)
      → find u (state_of (run show hello_both new_forward)).routing_table ≡ some d
      → u ≡ names d)
    × ((u : Bytes)
        → find u (connection_notify 1 1 (state_of (run show hello_both new_forward))).routing_table
          ≢ some 1)
run_removes_example =
    run_removes show names hello_both (state_of (run show hello_both new_forward)) 1 1
      (refl, (refl, _)) run-hello_both (ground arith)

-- A connection that sends under two names leaves a route behind.
abbrev two_names : List Call
two_names =
    packet all_there (from_to (1 ∷ []) (1 ∷ [])) 1
    ∷ packet all_there (from_to (2 ∷ []) (1 ∷ [])) 1
    ∷ notice 1 1
    ∷ []

stale_route : find (1 ∷ []) (state_of (run show two_names new_forward)).routing_table ≡ some 1
unfolding run step process_packet learn find insert equal connection_notify retrive_module_private
    after_retrive store_module_private assign erase
stale_route = refl
