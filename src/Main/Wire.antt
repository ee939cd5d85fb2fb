-- ===== src/Main/Wire.antt =====
-- Messages that one side writes with `write_msg` and the other side reads.
use avrouter.Prelude.{
  ℕ, ◌*◌, ◌≡◌, refl, sym, ap, ◌∙◌, List, [], ◌∷◌, ◌++◌, map, Bytes, All, length, ok, arith,
}
use avrouter.Serialization.{Protobuf, encode}
use avrouter.Connection.WriteQueue.{Event, ask, Writer, idle, idle-Inv, run}
use avrouter.Connection.Drain.{asks_drain}
use avrouter.Connection.Stream.{pump, ready}
use avrouter.Connection.Delivery.{stream, IsSendable, pump-stream}

abbrev pub texts_of : ℕ × Bytes → Bytes
texts_of (target, text) = text

-- The bytes of the writes one after the other.
abbrev pub joined : List Bytes → Bytes
joined [] = []
joined (text ∷ rest) = text ++ joined rest

module _ {A : Type 0} (pb : Protobuf) (g : A → pb.Message) where
  length-map : (xs : List A) → length (map g xs) ≡ length xs
  length-map [] = refl
  length-map (x ∷ xs) = omega (arith, length-map xs)

  -- The packets of these messages are read as the messages.
  pub pump-map :
      (xs : List A) (queue : List Bytes)
      → All (IsSendable pb) (map g xs)
      → pump pb (2 * length xs) (ready pb queue []) (stream pb (map g xs))
        ≡ ok (ready pb queue (map g xs), [])
  pump-map xs queue s =
      ap (λ n. pump pb (2 * n) (ready pb queue []) (stream pb (map g xs))) (sym (length-map xs))
      ∙ pump-stream pb queue [] (map g xs) s

  module _ (target : ℕ) where
    -- The call of `write_msg` with a packet, on one connection.
    abbrev pub call : A → ℕ × Bytes
    call x = (target, encode pb (g x))

    pub calls-target : (xs : List A) → All (λ c. c.0 ≡ target) (map call xs)
    calls-target [] = tt
    calls-target (x ∷ xs) = (refl, calls-target xs)

    joined-calls : (xs : List A) → joined (map texts_of (map call xs)) ≡ stream pb (map g xs)
    unfolding stream
    joined-calls [] = refl
    joined-calls (x ∷ xs) = ap (λ bs. encode pb (g x) ++ bs) (joined-calls xs)

    -- When a new connection is asked for these writes, the loop can run so that no handler faults
    -- and all of them are sent, and whoever reads the bytes gets the messages in their order.
    pub calls-read :
        (xs : List A) (queue : List Bytes)
        → All (IsSendable pb) (map g xs)
        → (es : List Event) × (w : Writer) × (run idle (map ask (map texts_of (map call xs)) ++ es)
            ≡ ok w)
          × (pump pb (2 * length xs) (ready pb queue []) (joined w.sent)
              ≡ ok (ready pb queue (map g xs), []))
    calls-read xs queue s =
        let (es, w, ran, sent) = asks_drain (map texts_of (map call xs)) idle idle-Inv refl in
        let bytes : joined w.sent ≡ stream pb (map g xs) = ap joined sent ∙ joined-calls xs in
        (es, w, ran, ap (pump pb (2 * length xs) (ready pb queue [])) bytes ∙ pump-map xs queue s)
