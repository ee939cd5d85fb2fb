-- ===== src/Connection/WriteQueue.antt =====
-- The outgoing side of a connection: `write_msg`, `do_write` and `handle_write` with the event loop
-- that runs the posted calls in order and reports each `async_write` once.
use avrouter.Prelude.{
  ◌≡◌, ◌≢◌, refl, Bool, true, false, List, [], ◌∷◌, ◌++◌, append_assoc, Bytes, if◌then◌else◌, Run,
  ok, ◌>>=◌, arith,
}
use avrouter.Connection.{
  Connection, Effect, write, post_write, new_connection, write_msg, do_write, handle_write,
}

-- What may happen next: somebody calls `write_msg`, the loop runs the oldest posted call, or it
-- reports the oldest write, with an error or not.
pub data Event : Type 0 where
  ask : Bytes → Event
  run_posted : Event
  written : Bool → Event

-- `posted` are the calls of `do_write` that wait in the io_service, `outgoing` the writes that asio
-- works on, `sent` the bytes of the writes that have succeeded, and `asked` all that was asked for.
pub record Writer : Type 0 where
  pub connection : Connection
  pub posted : List Bytes
  pub outgoing : List Bytes
  pub sent : List Bytes
  pub asked : List Bytes
  pub failed : Bool

abbrev pub idle : Writer
idle = record {
  connection = new_connection;
  posted = [];
  outgoing = [];
  sent = [];
  asked = [];
  failed = false;
}

-- What the loop and asio take over from the effects of a handler.
abbrev perform : Writer → List (Effect (Unit {0})) → Writer
perform w [] = w
perform w (write bytes ∷ es) = perform (record w { outgoing = w.outgoing ++ bytes ∷ [] }) es
perform w (post_write msg ∷ es) = perform (record w { posted = w.posted ++ msg ∷ [] }) es
perform w (_ ∷ es) = perform w es

abbrev settled : Writer → Connection × List (Effect (Unit {0})) → Writer
settled w (c, es) = perform (record w { connection = c }) es

turn_posted : Writer → List Bytes → Run Writer
turn_posted w [] = ok w
turn_posted w (msg ∷ rest) = ok (settled (record w { posted = rest }) (do_write msg w.connection))

turn_written : Writer → Bool → List Bytes → Run Writer
turn_written w error [] = ok w
turn_written w error (bytes ∷ rest) = do
  handled ← handle_write error w.connection
  ok (
      settled
        (record w {
          outgoing = rest;
          sent = if error then w.sent else w.sent ++ bytes ∷ [];
          failed = error;
        })
        handled)

unfoldable pub turn : Writer → Event → Run Writer
unfolding turn_posted turn_written
turn w (ask msg) =
    ok (settled (record w { asked = w.asked ++ msg ∷ [] }) (write_msg msg w.connection))
turn w run_posted = turn_posted w w.posted
turn w (written error) = turn_written w error w.outgoing

unfoldable pub run : Writer → List Event → Run Writer
run w [] = ok w
run w (e ∷ es) = do w' ← turn w e; run w' es

abbrev pub front : List Bytes → List Bytes
front [] = []
front (msg ∷ rest) = msg ∷ []

-- What has been sent, what is queued and what is posted are the messages asked for, in their order.
-- Unless a write has failed, exactly the front of the queue is being written; after a failure
-- nothing is, and the message that failed stays at the front.
pub record Inv (w : Writer) : Type 0 where
  pub in_order : w.sent ++ (w.connection.write_queue ++ w.posted) ≡ w.asked
  pub one_write : w.outgoing ≡ (if w.failed then [] else front w.connection.write_queue)
  pub stuck : w.failed ≡ true → w.connection.write_queue ≢ []

pub idle-Inv : Inv idle
idle-Inv = record { in_order = refl; one_write = refl; stuck = λ e. cc }

-- One turn ends with no fault, in a state where the invariant holds.
abbrev pub Keeps : Run Writer → Type 0
Keeps m = (w' : Writer) × (m ≡ ok w') × Inv w'

pub turn_ask-Inv : (w : Writer) (msg : Bytes) → Inv w → Keeps (turn w (ask msg))
unfolding turn write_msg
turn_ask-Inv w msg v = (
  _,
  refl,
  record {
    in_order = rw (← v.in_order, append_assoc, append_assoc);
    one_write = v.one_write;
    stuck = v.stuck;
  },
)

-- The state with this queue, these posted calls and these writes.
abbrev pub with_lists : Writer → List Bytes → List Bytes → List Bytes → Writer
with_lists w queue posted outgoing = record w {
  connection = record w.connection { write_queue = queue };
  posted = posted;
  outgoing = outgoing;
}

turn_posted-Inv :
    (w : Writer) (queue posted outgoing : List Bytes)
    → Inv (with_lists w queue posted outgoing)
    → Keeps (turn (with_lists w queue posted outgoing) run_posted)
unfolding turn do_write
turn_posted-Inv w queue [] outgoing v = (_, refl, v)
turn_posted-Inv w [] (msg ∷ rest) outgoing v = (
  _,
  refl,
  record {
    in_order = v.in_order;
    one_write = ground (arith, v.one_write, v.stuck);
    stuck = λ e. cc;
  },
)
turn_posted-Inv w (x ∷ queue) (msg ∷ rest) outgoing v = (
  _,
  refl,
  record { in_order = rw append_assoc v.in_order; one_write = v.one_write; stuck = λ e. cc },
)

no_write :
    {bytes : Bytes} {rest : List Bytes} (failed : Bool)
    → (bytes ∷ rest) ≡ (if failed then [] else [])
    → ⊥
no_write failed e = ground arith

only_write :
    {bytes x : Bytes} {rest : List Bytes} (failed : Bool)
    → (bytes ∷ rest) ≡ (if failed then [] else x ∷ [])
    → (bytes ≡ x) × (rest ≡ [])
only_write failed e = ground arith

turn_written-Inv :
    (w : Writer) (error : Bool) (queue posted outgoing : List Bytes)
    → Inv (with_lists w queue posted outgoing)
    → Keeps (turn (with_lists w queue posted outgoing) (written error))
unfolding turn handle_write
turn_written-Inv w error queue posted [] v = (_, refl, v)
turn_written-Inv w error [] posted (bytes ∷ rest) v = absurd (no_write w.failed v.one_write)
turn_written-Inv w true (x ∷ queue) posted (bytes ∷ rest) v = (
  _,
  refl,
  record {
    in_order = v.in_order;
    one_write = (only_write w.failed v.one_write).1;
    stuck = λ e. cc;
  },
)
turn_written-Inv w false (x ∷ []) posted (bytes ∷ rest) v =
    let (e, none_left) = only_write w.failed v.one_write in
    (
      _,
      refl,
      record {
        in_order = rw (e, append_assoc) v.in_order;
        one_write = rw none_left;
        stuck = λ e. cc;
      },
    )
turn_written-Inv w false (x ∷ y ∷ queue) posted (bytes ∷ rest) v =
    let (e, none_left) = only_write w.failed v.one_write in
    (
      _,
      refl,
      record {
        in_order = rw (e, append_assoc) v.in_order;
        one_write = rw none_left;
        stuck = λ e. cc;
      },
    )

pub turn-Inv : (w : Writer) (e : Event) → Inv w → Keeps (turn w e)
turn-Inv w (ask msg) v = turn_ask-Inv w msg v
turn-Inv w run_posted v = turn_posted-Inv w w.connection.write_queue w.posted w.outgoing v
turn-Inv w (written error) v =
    turn_written-Inv w error w.connection.write_queue w.posted w.outgoing v

-- However the calls, the event loop and asio take turns, no handler pops an empty queue and the
-- invariant is kept: the bytes sent, those queued and those posted are the messages asked for, each
-- once and in their order, and one write at most is under way, that of the front of the queue.
pub run-Inv : (w : Writer) (es : List Event) → Inv w → (w' : Writer) × (run w es ≡ ok w') × Inv w'
unfolding run
run-Inv w [] v = (w, refl, v)
run-Inv w (e ∷ es) v =
    let (w1, first, v1) = turn-Inv w e v in
    let (w2, later, v2) = run-Inv w1 es v1 in (w2, rw (first, run) later, v2)
