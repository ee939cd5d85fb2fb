-- ===== src/Register/Csr/Posts.antt =====
-- What `async_send_csr_coro` writes and posts.
use avrouter.Prelude.{
  ℕ, zero, suc, ◌+◌, ◌≤◌, ◌<◌, ◌≡◌, ◌≢◌, refl, ap, ◌∙◌, Bool, true, false, Bool-cases, Run-cases,
  ◌⊎◌, inl, inr, not, List, All, [], ◌∷◌, ◌++◌, Option, some, Bytes, length, if◌then◌else◌, Run, ok,
  Fault, fault, ◌>>=◌, arith,
}
use avrouter.Serialization.{Protobuf, encode}
use avrouter.Serialization.RoundTrip.{IsRegistered}
use avrouter.Register.{push_ready, cert_posts, poll, async_read_protobuf_message}
use avrouter.Register.Read.{async_read_protobuf_message-encode}
use avrouter.Register.Outcome.{
  Verdict, down, pending, grants, verdict, takes_request, comes, posts_of, cert_posts-grants,
  push_ready-takes_request, can_read-poll,
}
use avrouter.Register.Csr.{
  CaProto, Network, poll_writes, read_cert, await_push, async_send_csr_coro, seen,
}

-- A message that the authority has sent: it has a body, and its packet is smaller than 10000 bytes.
pub record Sent (pb : Protobuf) : Type 0 where
  pub message : pb.Message
  pub body : Bytes
  pub registered : IsRegistered pb message body
  pub nonempty : body ≢ []
  pub short : 4 + length (pb.type_name message) + length body < 10000

-- All writes succeed, and the name resolves and the connection stands before them.
pub record IsFine (net : Network) : Type 0 where
  pub resolves : net.resolves ≡ true
  pub connects : net.connects ≡ true
  pub writes : (n : ℕ) → net.writes n ≡ true

if_none_fails :
    {A : Type 0} (a b c : Bool) (x y z result : A)
    → a ≡ true
    → b ≡ true
    → c ≡ true
    → (if not a then x else if not b then y else if not c then z else result) ≡ result
if_none_fails a b c x y z result ha hb hc = rw (ha, hb, hc)

poll_writes-poll :
    (left i : ℕ) (packet : Bytes) (net : Network)
    → IsFine net
    → (poll_writes left i packet net).1 ≡ ok (poll left i net.can_read)
unfolding poll_writes poll
poll_writes-poll zero i packet net fine = refl
poll_writes-poll (suc left) i packet net fine =
    let later = poll_writes-poll left (suc i) packet net fine in
    elim (Bool-cases (net.can_read i)) [ inl e ↦ rw e | inr e ↦ rw (e, fine.writes (suc i)) later ]

-- What is written, and how it ends.
abbrev Writes : Type 0 → Type 0
Writes A = List Bytes × Run A

-- At most `n` packets, all of them the same.
abbrev AreCopies : Bytes → ℕ → List Bytes → Type 0
AreCopies packet n sent = All (λ p. p ≡ packet) sent × (length sent ≤ n)

-- The coroutine throws, or makes the posts of a verdict.
abbrev pub IsOutcome : Run (List (ℕ × Bytes)) → Type 0
IsOutcome r = ((why : Fault) × (r ≡ fault why)) ⊎ ((w : Verdict) × (r ≡ ok (posts_of w)))

either {ℓ κ} :
    {A : Type ℓ} (P : A → Type κ) (b : Bool) {x y : A} → P x → P y → P (if b then x else y)
either P true p q = p
either P false p q = q

poll_writes-AreCopies :
    (left i : ℕ) (packet : Bytes) (net : Network)
    → AreCopies packet left (poll_writes left i packet net).0
unfolding poll_writes
poll_writes-AreCopies zero i packet net = (tt, omega arith)
poll_writes-AreCopies (suc left) i packet net =
    let (same, short) = poll_writes-AreCopies left (suc i) packet net in
    let few = AreCopies packet (suc left) in
    either (λ (r : Writes _). few r.0) (net.can_read i) (tt, omega arith)
      (either (λ (r : Writes _). few r.0) (net.writes (suc i)) ((refl, same), omega (arith, short))
        (tt, omega arith))

module _ (pb : Protobuf) (proto : CaProto pb) (fingerprint : Bytes) (net : Network) where
  await_push-AreCopies :
      (packet : Bytes) (came : Run (Option pb.Message × Bytes))
      → AreCopies packet 10 (await_push pb proto fingerprint net packet came).0
  unfolding await_push
  await_push-AreCopies packet (fault why) = (tt, omega arith)
  await_push-AreCopies packet (ok (msg, rest)) =
      either (λ (r : Writes _). AreCopies packet 10 r.0)
        (not (push_ready fingerprint (seen pb proto msg))) (tt, omega arith)
        (poll_writes-AreCopies 10 0 packet net)

  read_cert-IsOutcome :
      (input : Bytes) (i : ℕ) → IsOutcome (read_cert pb proto fingerprint net input i)
  unfolding read_cert
  read_cert-IsOutcome input i =
      either IsOutcome (net.can_read i)
        (elim (Run-cases (async_read_protobuf_message pb input)) [
          | inr e ↦ inl (e.0, ap (λ m. m >>= cert_answer) e.1)
          | inl e ↦ inr (
            grants fingerprint (seen pb proto e.0.0),
            ap (λ m. m >>= cert_answer) e.1
                ∙ ap ok (cert_posts-grants fingerprint (seen pb proto e.0.0)),
          )
        ])
        (inr (pending, refl))
    where
      cert_answer : Option pb.Message × Bytes → Run (List (ℕ × Bytes))
      cert_answer (msg, rest) = ok (cert_posts fingerprint (seen pb proto msg) ++ (1, []) ∷ [])

  then_read-IsOutcome :
      (input : Bytes) (end : Run ℕ) → IsOutcome (end >>= read_cert pb proto fingerprint net input)
  then_read-IsOutcome input (fault why) = inl (why, refl)
  then_read-IsOutcome input (ok i) = read_cert-IsOutcome input i

  await_push-IsOutcome :
      (packet : Bytes) (came : Run (Option pb.Message × Bytes))
      → IsOutcome (await_push pb proto fingerprint net packet came).1
  unfolding await_push
  await_push-IsOutcome packet (fault why) = inl (why, refl)
  await_push-IsOutcome packet (ok (msg, rest)) =
      either (λ (r : Writes _). IsOutcome r.1) (not (push_ready fingerprint (seen pb proto msg)))
        (inr (down, refl)) (then_read-IsOutcome rest (poll_writes 10 0 packet net).1)

module _ (pb : Protobuf) (proto : CaProto pb) (csr fingerprint : Bytes) (net : Network) where
  started :
      IsFine net
      → (async_send_csr_coro pb proto csr fingerprint net).1
        ≡ (await_push pb proto fingerprint net
            (encode pb (proto.csr_push csr))
            (async_read_protobuf_message pb net.received)).1
  unfolding async_send_csr_coro
  started fine =
      ap (λ r. r.1)
        (if_none_fails {A = Writes (List (ℕ × Bytes))} net.resolves net.connects (net.writes 0) _ _
          _ _ fine.resolves fine.connects (fine.writes 0))

  -- If the network is fine and the authority sends two encoded messages, each with a body and with
  -- a packet smaller than 10000 bytes, then the coroutine ends. It posts -1 if the first message is
  -- not a push_ok that lists the fingerprint of the request; otherwise it posts 1, and before that
  -- 0 with the certificate if something comes to read in one of the ten turns or right after them
  -- and the second message is a certificate for just this fingerprint.
  pub async_send_csr_coro-answered :
      (pushed pulled : Sent pb) (rest : Bytes)
      → IsFine net
      → net.received ≡ encode pb pushed.message ++ (encode pb pulled.message ++ rest)
      → (async_send_csr_coro pb proto csr fingerprint net).1
        ≡ ok (
            posts_of (
              verdict fingerprint (record {
                pushed = some (proto.view pushed.message);
                can_read = net.can_read;
                pulled = some (proto.view pulled.message);
              })))
  unfolding await_push read_cert
  async_send_csr_coro-answered pushed pulled rest fine received =
      let first : async_read_protobuf_message pb net.received
          ≡ ok (some pushed.message, encode pb pulled.message ++ rest) =
        ap (async_read_protobuf_message pb) received
        ∙ async_read_protobuf_message-encode pb pushed.message pushed.body _ pushed.registered
            pushed.nonempty pushed.short in
      let second =
        async_read_protobuf_message-encode pb pulled.message pulled.body rest pulled.registered
          pulled.nonempty pulled.short in
      let turns = poll_writes-poll 10 0 (encode pb (proto.csr_push csr)) net fine in
      let same = push_ready-takes_request fingerprint (some (proto.view pushed.message)) in
      let readable = can_read-poll 10 0 net.can_read in
      let certificate = cert_posts-grants fingerprint (some (proto.view pulled.message)) in
      started fine
      ∙ elim (Bool-cases (takes_request fingerprint (some (proto.view pushed.message)))) [
        | inr differs ↦ rw (first, same, differs)
        | inl got ↦ elim (Bool-cases (comes 10 0 net.can_read)) [
          | inl here ↦ rw (first, same, got, turns, readable, here, second, certificate)
          | inr none_yet ↦ rw (first, same, got, turns, readable, none_yet)
        ]
      ]

  -- Whatever the network does, all that the coroutine writes is the request, and that at most
  -- eleven times: what it asks for again in the polling is not the certificate.
  pub async_send_csr_coro-writes :
      All
        (λ packet. packet ≡ encode pb (proto.csr_push csr))
        (async_send_csr_coro pb proto csr fingerprint net).0
      × (length ((async_send_csr_coro pb proto csr fingerprint net).0) ≤ 11)
  unfolding async_send_csr_coro
  async_send_csr_coro-writes =
      let few = AreCopies (encode pb (proto.csr_push csr)) 11 in
      let nothing : few [] = (tt, omega arith) in
      let (same, short) =
        await_push-AreCopies pb proto fingerprint net (encode pb (proto.csr_push csr))
          (async_read_protobuf_message pb net.received) in
      either (λ (r : Writes _). few r.0) (not net.resolves) nothing
        (either (λ (r : Writes _). few r.0) (not net.connects) nothing
          (either (λ (r : Writes _). few r.0) (not (net.writes 0)) nothing
            ((refl, same), omega (arith, short))))

  -- What the coroutine comes to, whatever the network does: it throws, or it makes the posts of a
  -- verdict.
  pub async_send_csr_coro-cases :
      ((why : Fault) × ((async_send_csr_coro pb proto csr fingerprint net).1 ≡ fault why))
      ⊎ ((w : Verdict) × ((async_send_csr_coro pb proto csr fingerprint net).1 ≡ ok (posts_of w)))
  unfolding async_send_csr_coro
  async_send_csr_coro-cases =
      either (λ (r : Writes _). IsOutcome r.1) (not net.resolves) (inl (_, refl))
        (either (λ (r : Writes _). IsOutcome r.1) (not net.connects) (inl (_, refl))
          (either (λ (r : Writes _). IsOutcome r.1) (not (net.writes 0)) (inl (_, refl))
            (await_push-IsOutcome pb proto fingerprint net (encode pb (proto.csr_push csr))
              (async_read_protobuf_message pb net.received))))
