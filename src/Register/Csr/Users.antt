-- ===== src/Register/Csr/Users.antt =====
-- A registration whose request goes over the network to the authority: what the client is told, and
-- what becomes of the users.
use avrouter.Prelude.{ℕ, ◌≡◌, List, Option, some, Bytes, equal, if◌then◌else◌, Run}
use avrouter.Serialization.{Protobuf}
use avrouter.Database.{Soci}
use avrouter.Register.{Response, UserRegister, CsrCheck, user_register}
use avrouter.Register.Outcome.{IsUp, IsSigned}
use avrouter.Register.Csr.{CaProto, Network, async_send_csr_coro, async_send_csr}

module _ (pb : Protobuf) (proto : CaProto pb) (net : Network) (turns : ℕ → ℕ) (soci : Soci)
    (up : IsUp soci) (check : CsrCheck) (msg : UserRegister) (t : soci.Table)
    (signed : IsSigned check msg) where
  -- What the coroutine comes to for this registration.
  abbrev pub ending : Run (List (ℕ × Bytes))
  ending = (async_send_csr_coro pb proto (check.pem signed.req) (check.sha1 msg.rsa_pubkey) net).1

  -- The registration.
  abbrev pub result : Run (List Response × soci.Table)
  result = user_register soci check (async_send_csr pb proto net) turns (some msg) t

  -- The users, all as they were but this one.
  abbrev pub Changes : soci.Table → Option (Option Bytes) → Type 0
  Changes t' x = (v : Bytes) → up.view t' v ≡ (if equal msg.user_name v then x else up.view t v)
