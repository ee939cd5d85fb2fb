-- ===== src/Register.antt =====
-- src/register_moudle.cpp: the check of a name and the registration, with the request to the
-- certificate authority. The handlers of the database and of the authority are functions of their
-- own; OpenSSL, protobuf and the authority's answers are parameters.
pub mod Outcome
pub mod Read
pub mod Csr
pub mod Httpd
pub mod History
use avrouter.Prelude.{
  ℕ, zero, suc, ◌+◌, Bool, true, false, not, ◌||◌, ◌&&◌, List, [], ◌∷◌, ◌++◌, Option, none, some,
  Bytes, if◌then◌else◌, ◌==◌, equal, length, leb, u32_mod, ◌-◌, read_be32, ltb, take, drop, Run, ok,
  ◌>>=◌, fault, runtime_error, null_pointer,
}
use avrouter.Serialization.{Protobuf, decode}
use avrouter.Database.{Soci, availability_check, register_user, delete_user, update_user_cert}

pub data Code : Type 0 where
  register_succeed register_succeed_pendding_cert : Code
  register_failed_name_taken register_failed_ca_down register_failed_csr_verify_failure : Code

-- What a client is sent.
pub data Response : Type 0 where
  name_available name_taken : Response
  register_result : Code → Option Bytes → Response

-- `proto::user_register`.
pub record UserRegister : Type 0 where
  pub user_name : Bytes
  pub csr : Bytes
  pub rsa_pubkey : Bytes
  pub mail_address : Bytes
  pub cell_phone : Bytes

-- `async_read_protobuf_message` on all bytes that still come before the peer closes: what it
-- returns, and the bytes that it leaves. A read that is not satisfied throws.
unfoldable pub async_read_protobuf_message :
    (pb : Protobuf) → Bytes → Run (Option pb.Message × Bytes)
async_read_protobuf_message pb input = elim (read_be32 input) [
  | none ↦ fault runtime_error
  | some pktlen ↦
      if leb 10000 pktlen
      then ok (none, drop 4 input)
      else if ltb (length input) (pktlen + 4)
      then fault runtime_error
      else decode pb (take (pktlen + 4) input) >>= λ msg. ok (msg, drop (pktlen + 4) input)
]

-- A message of the authority.
pub data CaMessage : Type 0 where
  push_ok : List Bytes → CaMessage
  cert_push : Bytes → Bytes → CaMessage
  other : CaMessage

-- What comes from the authority in one request: the answer to the push, whether there is something
-- to read at each turn of the polling, and the message that is read then.
pub record CaAnswers : Type 0 where
  pub pushed : Option CaMessage
  pub can_read : ℕ → Bool
  pub pulled : Option CaMessage

abbrev pub contains : Bytes → List Bytes → Bool
contains fingerprint [] = false
contains fingerprint (f ∷ fs) = equal f fingerprint || contains fingerprint fs

unfoldable pub push_ready : Bytes → Option CaMessage → Bool
push_ready fingerprint (some (push_ok fingerprints)) = contains fingerprint fingerprints
push_ready fingerprint _ = false

-- The turn of the loop at which it ends, at most `left` turns from `i` on.
unfoldable pub poll : ℕ → ℕ → (ℕ → Bool) → ℕ
poll zero i can_read = i
poll (suc left) i can_read =
    let later = poll left (suc i) can_read in if can_read i then i else later

-- The posts of the handler for the message that was pulled, each with its code and certificate.
unfoldable pub cert_posts : Bytes → Option CaMessage → List (ℕ × Bytes)
cert_posts fingerprint (some (cert_push f cert)) =
    if equal f fingerprint then (0, cert) ∷ [] else []
cert_posts fingerprint _ = []

-- -1 as an `int`.
abbrev pub minus_one : ℕ
minus_one = u32_mod - 1

-- What OpenSSL makes of a registration. `verifies` is whether X509_REQ_verify gives more than 0.
pub record CsrCheck : Type 1 where
  pub Req : Type 0
  pub Key : Type 0
  pub d2i_req : Bytes → Option Req
  pub d2i_key : Bytes → Option Key
  pub verifies : Req → Key → Bool
  pub pem : Req → Bytes
  pub sha1 : Bytes → Bytes

-- A request to the authority: the name of the user, the request in PEM and the fingerprint.
pub record CsrRequest : Type 0 where
  pub user_name : Bytes
  pub pem_csr : Bytes
  pub rsa_figureprint : Bytes

module _ (soci : Soci) where
  unfoldable pub check_name : Option Bytes → soci.Table → List Response
  check_name none table = []
  check_name (some []) table = []
  check_name (some (c ∷ cs)) table =
      (if availability_check soci (c ∷ cs) table then name_available else name_taken) ∷ []

  -- What a handler sends, and what the database sends by a handler that it posts to its own service
  -- when it is done; and the table.
  pub record Handled : Type 0 where
    pub now : List Response
    pub posted : List Response
    pub table : soci.Table

  -- The handler of `async_send_csr`, for one post.
  unfoldable pub csr_sent : Bytes → ℕ × Bytes → soci.Table → Run Handled
  csr_sent user_name (code, cert) table =
      let (_, deleted) = delete_user soci user_name table in
      if code == 0
      then (update_user_cert soci user_name cert table >>= λ (done, updated). ok (record {
        now = [];
        posted = register_result register_succeed (some cert) ∷ [];
        table = updated;
      }))
      else if code == 1
      then ok (record {
        now = register_result register_succeed_pendding_cert none ∷ [];
        posted = [];
        table = table;
      })
      else ok (record {
        now = [];
        posted = register_result register_failed_ca_down none ∷ [];
        table = deleted;
      })

  -- The handlers of all posts from number `i` on. What the database has posted waits for its own
  -- service: `turns i` of what waits there is run before post `i`, and all that is left in the end.
  -- If the database has the service of the request, all posts are queued before it, and `turns` is
  -- always 0.
  unfoldable pub csr_posts :
      Bytes
      → (ℕ → ℕ)
      → ℕ
      → List (ℕ × Bytes)
      → List Response
      → soci.Table
      → Run (List Response × soci.Table)
  csr_posts user_name turns i [] waiting table = ok (waiting, table)
  csr_posts user_name turns i (post ∷ posts) waiting table = do
    handled ← csr_sent user_name post table
    later ←
        csr_posts user_name turns (suc i) posts (drop (turns i) waiting ++ handled.posted)
          handled.table
    ok (take (turns i) waiting ++ (handled.now ++ later.0), later.1)

  -- What a registration comes to before the authority is asked: what is sent, the table, and the
  -- request, if one is made.
  pub record Begun : Type 0 where
    pub sent : List Response
    pub table : soci.Table
    pub request : Option CsrRequest

  module _ (check : CsrCheck) where
    -- The handler of `register_user`.
    unfoldable pub registered : UserRegister → check.Req → Bool → soci.Table → Begun
    registered msg req true table = record {
      sent = [];
      table = table;
      request = some (record {
        user_name = msg.user_name;
        pem_csr = check.pem req;
        rsa_figureprint = check.sha1 msg.rsa_pubkey;
      });
    }
    registered msg req false table = record {
      sent = register_result register_failed_name_taken none ∷ [];
      table = table;
      request = none;
    }

    unfoldable pub register_read : UserRegister → check.Req → check.Key → soci.Table → Begun
    register_read msg req key table =
        let (done, table1) =
          register_user soci msg.user_name msg.rsa_pubkey msg.mail_address msg.cell_phone table in
        if check.verifies req key then registered msg req done table1 else record {
          sent = register_result register_failed_csr_verify_failure none ∷ [];
          table = table;
          request = none;
        }

    -- X509_REQ_verify reads from what the two calls of d2i give, also from a null pointer.
    unfoldable pub register_valid : UserRegister → soci.Table → Run Begun
    register_valid msg table = elim (check.d2i_req msg.csr) [
      | none ↦ fault null_pointer
      | some req ↦ elim (check.d2i_key msg.rsa_pubkey) [
        | none ↦ fault null_pointer
        | some key ↦ ok (register_read msg req key table)
      ]
    ]

    unfoldable pub begin_register : Option UserRegister → soci.Table → Run Begun
    begin_register none table = ok (record { sent = []; table = table; request = none })
    begin_register (some msg) table =
        if equal msg.user_name []
        then ok (record { sent = []; table = table; request = none })
        else register_valid msg table

    -- `async_send_csr` is all posts of its handler, for a request and a fingerprint.
    module _ (async_send_csr : Bytes → Bytes → List (ℕ × Bytes)) (turns : ℕ → ℕ) where
      unfoldable pub send_request : Option CsrRequest → Begun → Run (List Response × soci.Table)
      send_request none begun = ok (begun.sent, begun.table)
      send_request (some r) begun =
          csr_posts r.user_name turns 0 (async_send_csr r.pem_csr r.rsa_figureprint) begun.sent
            begun.table

      -- A registration that runs to its end with nothing else in between.
      unfoldable pub user_register :
          Option UserRegister → soci.Table → Run (List Response × soci.Table)
      user_register msg table =
          begin_register msg table >>= λ begun. send_request begun.request begun
