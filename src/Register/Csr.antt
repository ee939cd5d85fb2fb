-- ===== src/Register/Csr.antt =====
-- `async_send_csr_coro` over the network: the coroutine's waits are its steps. What the resolver,
-- the sockets and the authority do is given for each wait; where a wait fails, the coroutine throws
-- `boost::system::system_error`, which nothing catches.
pub mod Posts
pub mod Users
use avrouter.Prelude.{
  ℕ, zero, suc, Bool, not, List, [], ◌∷◌, ◌++◌, Option, none, some, Bytes, if◌then◌else◌, Run, ok,
  fault, runtime_error, ◌>>=◌,
}
use avrouter.Serialization.{Protobuf, encode}
use avrouter.Register.{CaMessage, push_ready, cert_posts, minus_one, async_read_protobuf_message}

-- The generated classes of the authority's messages: the request, and what the tests on the name of
-- a message's type and the fields of its class make of it.
pub record CaProto (pb : Protobuf) : Type 0 where
  pub csr_push : Bytes → pb.Message
  pub view : pb.Message → CaMessage

-- What the network does in one request.
pub record Network : Type 0 where
  pub resolves : Bool
  pub connects : Bool
  -- whether the n-th `async_write` succeeds: the timer of ten seconds may cancel one
  pub writes : ℕ → Bool
  -- all bytes that come from the authority before it closes: a read waits until it has its bytes or
  -- the authority closes, however long that takes
  pub received : Bytes
  -- `can_read` at each turn of the polling and after the last one
  pub can_read : ℕ → Bool

-- The loop from turn `i` on, at most `left` turns: what it writes, and the turn at which it ends.
-- Nothing cancels the timer that a turn waits for.
unfoldable pub poll_writes : ℕ → ℕ → Bytes → Network → List Bytes × Run ℕ
poll_writes zero i packet net = ([], ok i)
poll_writes (suc left) i packet net =
    let (sent, end) = poll_writes left (suc i) packet net in
    if net.can_read i
    then ([], ok i)
    else if net.writes (suc i)
    then (packet ∷ sent, end)
    else ([], fault runtime_error)

module _ (pb : Protobuf) (proto : CaProto pb) where
  abbrev pub seen : Option pb.Message → Option CaMessage
  seen none = none
  seen (some msg) = some (proto.view msg)

  module _ (fingerprint : Bytes) (net : Network) where
    -- After the loop.
    unfoldable pub read_cert : Bytes → ℕ → Run (List (ℕ × Bytes))
    read_cert input i =
        if net.can_read i
        then (async_read_protobuf_message pb input >>= λ (msg, rest).
            ok (cert_posts fingerprint (seen msg) ++ (1, []) ∷ []))
        else ok ((1, []) ∷ [])

    -- After the first write: what is written, and all posts of the handler.
    unfoldable pub await_push :
        Bytes → Run (Option pb.Message × Bytes) → List Bytes × Run (List (ℕ × Bytes))
    await_push packet (fault why) = ([], fault why)
    await_push packet (ok (msg, rest)) =
        let (sent, end) = poll_writes 10 0 packet net in
        if not (push_ready fingerprint (seen msg))
        then ([], ok ((minus_one, []) ∷ []))
        else (sent, end >>= read_cert rest)

  -- All that the coroutine writes, and all posts of the handler.
  unfoldable pub async_send_csr_coro : Bytes → Bytes → Network → List Bytes × Run (List (ℕ × Bytes))
  async_send_csr_coro csr fingerprint net =
      let packet = encode pb (proto.csr_push csr) in
      let (sent, posts) =
        await_push fingerprint net packet (async_read_protobuf_message pb net.received) in
      if not net.resolves
      then ([], fault runtime_error)
      else if not net.connects
      then ([], fault runtime_error)
      else if not (net.writes 0)
      then ([], fault runtime_error)
      else (packet ∷ sent, posts)

-- The posts that are made: none if the coroutine throws.
unfoldable pub posts_made : Run (List (ℕ × Bytes)) → List (ℕ × Bytes)
posts_made (fault why) = []
posts_made (ok posts) = posts

-- The posts of `async_send_csr`, which spawns the coroutine.
unfoldable pub async_send_csr :
    (pb : Protobuf) → CaProto pb → Network → Bytes → Bytes → List (ℕ × Bytes)
async_send_csr pb proto net csr fingerprint =
    posts_made ((async_send_csr_coro pb proto csr fingerprint net).1)
