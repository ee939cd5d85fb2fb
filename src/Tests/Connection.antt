-- ===== src/Tests/Connection.antt =====
-- A connection on packets of the stand-in for protobuf.
use avrouter.Prelude.{
  ℕ, ◌-◌, ◌^◌, ◌≡◌, refl, false, List, [], ◌∷◌, ◌++◌, codes, ok, fault, bad_range, arith, be32,
  replicate,
}
use avrouter.Serialization.Layout.{packet}
use avrouter.Connection.{
  Connection, read_exactly, read_body, handle_read_header, handle_write, write_msg, do_write,
}
use avrouter.Connection.Header.{header_outcome}
use avrouter.Connection.WriteQueue.{
  Event, ask, run_posted, written, Writer, idle, turn, run, Inv, run-Inv,
}
use avrouter.Connection.Drain.{run_drains}
use avrouter.Connection.Stream.{pump, ready}
use avrouter.Connection.Delivery.{IsSendable, pump_outcome}
use avrouter.Tests.Serialization.{plain, hello, hello-IsRegistered}

abbrev all_ones : Connection
all_ones = record { response = 255 ∷ 255 ∷ 255 ∷ 255 ∷ []; write_queue = []; abort = false }

-- A length of -1 asks for 2 ^ 64 - 1 bytes.
header_outcome_example :
    handle_read_header {M = Unit {0}} false all_ones
    ≡ (all_ones, read_exactly read_body (2 ^ 64 - 1) ∷ [])
unfolding be32
header_outcome_example =
    header_outcome {M = Unit {0}} all_ones (2 ^ 32 - 1) [] (omega arith) refl refl

abbrev two_writes : List Event
two_writes =
    ask (codes "a") ∷ ask (codes "b") ∷ run_posted ∷ run_posted ∷ written false ∷ written false ∷ []

run-two_writes :
    run idle two_writes
    ≡ ok (record idle { sent = codes "a" ∷ codes "b" ∷ []; asked = codes "a" ∷ codes "b" ∷ [] })
unfolding run turn write_msg do_write handle_write
run-two_writes = refl

pub idle-Inv : Inv idle
idle-Inv = record { in_order = refl; one_write = refl; stuck = λ e. cc }

run-Inv_example : (w : Writer) × (run idle two_writes ≡ ok w) × Inv w
run-Inv_example = run-Inv idle two_writes idle-Inv

abbrev two_posted : Writer
two_posted = record idle { posted = codes "a" ∷ codes "b" ∷ []; asked = codes "a" ∷ codes "b" ∷ [] }

two_posted-Inv : Inv two_posted
two_posted-Inv = record { in_order = refl; one_write = refl; stuck = λ e. cc }

run_drains_example :
    (n : ℕ) × (w : Writer) × (run two_posted (run_posted ∷ run_posted ∷ replicate n (written false))
      ≡ ok w)
    × (w.asked ≡ codes "a" ∷ codes "b" ∷ [])
    × (w.sent ≡ codes "a" ∷ codes "b" ∷ [])
run_drains_example = run_drains two_posted two_posted-Inv refl

hello-IsSendable : IsSendable plain hello
hello-IsSendable = record {
  body = 7 ∷ 8 ∷ [];
  registered = hello-IsRegistered;
  nonempty = cc;
  small = omega arith;
}

pump_outcome_example :
    pump plain 2 (ready plain [] []) (packet (2 ^ 32 - 1) (1 ∷ []) ++ 9 ∷ []) ≡ fault bad_range
pump_outcome_example =
    pump_outcome plain 0 [] [] (2 ^ 32 - 1) (1 ∷ []) (9 ∷ []) (omega arith) (omega arith)
