-- ===== src/Connection/Drain.antt =====
-- Every message that was asked for is sent in the end, if no write fails.
use mathlib.Core.Path.{subst, subst₂}
use avrouter.Prelude.{
  ℕ, ◌≡◌, refl, sym, ◌∙◌, false, List, [], ◌∷◌, ◌++◌, append-nil, Bytes, ok, >>=-eq-ok, replicate,
  length, map, append_assoc,
}
use avrouter.Connection.{write_msg, do_write, handle_write}
use avrouter.Connection.WriteQueue.{
  Event, ask, run_posted, written, Writer, turn, run, with_lists, Inv, turn_ask-Inv, turn-Inv,
}

-- A turn of the loop, as a goal for the lemmas below.
abbrev Turns : Writer → Event → (Writer → Type 0) → Type 0
Turns w e P = (w' : Writer) × (turn w e ≡ ok w') × P w'

posted_step :
    (w : Writer) (queue : List Bytes) (msg : Bytes) (rest outgoing : List Bytes)
    → Turns
        (with_lists w queue (msg ∷ rest) outgoing)
        run_posted
        (λ w'. (w'.posted ≡ rest) × (w'.asked ≡ w.asked) × (w'.failed ≡ w.failed))
unfolding turn do_write
posted_step w [] msg rest outgoing = (_, refl, (refl, refl, refl))
posted_step w (x ∷ queue) msg rest outgoing = (_, refl, (refl, refl, refl))

written_step :
    (w : Writer) (x : Bytes) (queue posted outgoing : List Bytes)
    → Turns (with_lists w (x ∷ queue) posted (x ∷ outgoing)) (written false) (λ w'.
      (w'.connection.write_queue ≡ queue)
      × (w'.posted ≡ posted)
      × (w'.asked ≡ w.asked)
      × (w'.failed ≡ false))
unfolding turn handle_write
written_step w x [] posted outgoing = (_, refl, (refl, refl, refl, refl))
written_step w x (y ∷ queue) posted outgoing = (_, refl, (refl, refl, refl, refl))

-- The invariant holds of the very state that a turn gives.
turn-keeps : (w w' : Writer) (e : Event) → Inv w → turn w e ≡ ok w' → Inv w'
turn-keeps w w' e v t = let (w1, t1, v1) = turn-Inv w e v in subst Inv (cc t) v1

run_step :
    (w w1 w' : Writer) (e : Event) (es : List Event)
    → turn w e ≡ ok w1
    → run w1 es ≡ ok w'
    → run w (e ∷ es) ≡ ok w'
unfolding run
run_step w w1 w' e es first later = rw (first, run) later

abbrev Drained : Writer → List Event → (Writer → Type 0) → Type 0
Drained w es P =
    (w' : Writer) × (run w es ≡ ok w') × Inv w' × (w'.asked ≡ w.asked) × (w'.failed ≡ false) × P w'

run_all_posted :
    (posted : List Bytes) (w : Writer)
    → w.posted ≡ posted
    → Inv w
    → w.failed ≡ false
    → Drained w (replicate (length posted) run_posted) (λ w'. w'.posted ≡ [])
run_all_posted [] w e v f = (w, unfold run in refl, v, refl, f, e)
run_all_posted (msg ∷ rest) w e v f =
    let (w1, t, (p1, a1, f1)) =
      subst
        (λ ps.
          Turns (with_lists w w.connection.write_queue ps w.outgoing) run_posted
            (λ w'. (w'.posted ≡ rest) × (w'.asked ≡ w.asked) × (w'.failed ≡ w.failed)))
        (sym e) (posted_step w w.connection.write_queue msg rest w.outgoing) in
    let (w2, later, v2, a2, f2, p2) =
      run_all_posted rest w1 p1 (turn-keeps w w1 run_posted v t) (f1 ∙ f) in
    (w2, run_step w w1 w2 run_posted _ t later, v2, a2 ∙ a1, f2, p2)

-- The write under way is that of the front of the queue.
front_outgoing :
    (w : Writer) (x : Bytes) (queue : List Bytes)
    → w.connection.write_queue ≡ x ∷ queue
    → Inv w
    → w.failed ≡ false
    → w.outgoing ≡ x ∷ []
front_outgoing w x queue e v f = v.one_write ∙ rw (f, e)

run_all_written :
    (queue : List Bytes) (w : Writer)
    → w.connection.write_queue ≡ queue
    → w.posted ≡ []
    → Inv w
    → w.failed ≡ false
    → Drained w
        (replicate (length queue) (written false))
        (λ w'. (w'.connection.write_queue ≡ []) × (w'.posted ≡ []))
run_all_written [] w e p v f = (w, unfold run in refl, v, refl, f, (e, p))
run_all_written (x ∷ queue) w e p v f =
    let step = λ (q o : List Bytes). Turns (with_lists w q w.posted o) (written false) (λ w'.
      (w'.connection.write_queue ≡ queue)
      × (w'.posted ≡ w.posted)
      × (w'.asked ≡ w.asked)
      × (w'.failed ≡ false)) in
    let (w1, t, (q1, p1, a1, f1)) =
      subst₂ step (sym e) (sym (front_outgoing w x queue e v f))
        (written_step w x queue w.posted []) in
    let (w2, later, v2, a2, f2, left) =
      run_all_written queue w1 q1 (p1 ∙ p) (turn-keeps w w1 (written false) v t) f1 in
    (w2, run_step w w1 w2 (written false) _ t later, v2, a2 ∙ a1, f2, left)

run-append :
    (es fs : List Event) (w w1 w2 : Writer)
    → run w es ≡ ok w1
    → run w1 fs ≡ ok w2
    → run w (es ++ fs) ≡ ok w2
unfolding run
run-append [] fs w w1 w2 h k = subst (λ u. run u fs ≡ ok w2) (cc h) k
run-append (e ∷ es) fs w w1 w2 h k =
    let (u, first, later) = >>=-eq-ok (turn w e) (λ u. run u es) h in
    rw (first, run) (run-append es fs u w1 w2 later k)

-- From any state in which no write has failed, the loop can run the posted calls and then report
-- writes that succeed, one for each message that is queued by then: after that every message
-- that was asked for has been sent, in the order in which they were asked for.
pub run_drains :
    (w : Writer)
    → Inv w
    → w.failed ≡ false
    → (n : ℕ) × (w' : Writer) × (run w
          (replicate (length w.posted) run_posted ++ replicate n (written false))
        ≡ ok w')
      × (w'.asked ≡ w.asked)
      × (w'.sent ≡ w.asked)
run_drains w v f =
    let (w1, h, v1, a1, f1, p1) = run_all_posted w.posted w refl v f in
    let (w2, k, v2, a2, f2, (q2, p2)) =
      run_all_written w1.connection.write_queue w1 refl p1 v1 f1 in
    let all_sent : w2.sent ≡ w2.asked = rw (sym v2.in_order, q2, p2, append-nil) in
    (length w1.connection.write_queue, w2, run-append _ _ w w1 w2 h k, a2 ∙ a1, all_sent ∙ a2 ∙ a1)

-- Messages that are asked for wait in their order.
run_asks :
    (msgs : List Bytes) (w : Writer)
    → Inv w
    → w.failed ≡ false
    → (w' : Writer) × (run w (map ask msgs) ≡ ok w')
      × Inv w'
      × (w'.asked ≡ w.asked ++ msgs)
      × (w'.failed ≡ false)
unfolding run turn write_msg
run_asks [] w v f = (w, refl, v, sym (append-nil w.asked), f)
run_asks (msg ∷ msgs) w v f =
    let w1 : Writer = record w { asked = w.asked ++ msg ∷ []; posted = w.posted ++ msg ∷ [] } in
    let (u, first, kept) = turn_ask-Inv w msg v in
    let done : turn w (ask msg) ≡ ok w1 = refl in
    let same : ok u ≡ ok w1 = sym first ∙ done in
    let (w2, later, v2, asked, f2) = run_asks msgs w1 (subst Inv (cc same) kept) f in
    (w2, later, v2, asked ∙ append_assoc w.asked (msg ∷ []) msgs, f2)

-- Messages that are asked for in a row, on a connection on which no write has failed, are sent in
-- their order after what was asked for before, when the loop then runs what is posted and reports
-- the writes.
pub asks_drain :
    (msgs : List Bytes) (w : Writer)
    → Inv w
    → w.failed ≡ false
    → (es : List Event) × (w' : Writer) × (run w (map ask msgs ++ es) ≡ ok w')
      × (w'.sent ≡ w.asked ++ msgs)
asks_drain msgs w v f =
    let (w1, h, v1, asked, f1) = run_asks msgs w v f in
    let (n, w2, k, same, sent) = run_drains w1 v1 f1 in
    (_, w2, run-append (map ask msgs) _ w w1 w2 h k, sent ∙ asked)
