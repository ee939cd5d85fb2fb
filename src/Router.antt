-- ===== src/Router.antt =====
-- src/router_server.cpp: the tables of callbacks and the accepting of connections. A callback works
-- on `W`, the state of all modules. The locks of the tables, which nothing else takes, are not
-- modelled, and `BOOST_ASSERT` is empty, as in a release build.
pub mod Registry
pub mod Accept
use avrouter.Prelude.{
  ℕ, suc, ◌+◌, Bool, true, false, not, ◌||◌, ◌&&◌, List, [], ◌∷◌, Option, none, some, Bytes, Run,
  ok, ◌>>=◌, if◌then◌else◌,
}
use avrouter.Prelude.Dict.{Dict, find, assign, erase}

module _ {V : Type 0} where
  -- `add_message_process_moudle` and `add_connection_process_moudle`, the same code on two tables.
  unfoldable pub add_process_moudle : Bytes → V → Dict V → Bool × Dict V
  add_process_moudle name cb table = elim (find name table) [
    | some _ ↦ (false, table)
    | none ↦ (true, assign name cb table)
  ]

  -- `del_message_process_moudle` and `del_connection_process_moudle`.
  unfoldable pub del_process_moudle : Bytes → Dict V → Bool × Dict V
  del_process_moudle name table = elim (find name table) [
    | none ↦ (false, table)
    | some _ ↦ (true, erase name table)
  ]

-- A message and the connection it came on; a notice's type and its connection.
abbrev pub MessageCallback : Type 0 → Type 0 → Type 0
MessageCallback M W = M → ℕ → W → Run W

abbrev pub ConnectionCallback : Type 0 → Type 0
ConnectionCallback W = ℕ → ℕ → W → Run W

module _ {M W : Type 0} where
  abbrev pub add_message_process_moudle :
      Bytes → MessageCallback M W → Dict (MessageCallback M W) → Bool × Dict (MessageCallback M W)
  add_message_process_moudle name cb table = add_process_moudle name cb table

  abbrev pub del_message_process_moudle :
      Bytes → Dict (MessageCallback M W) → Bool × Dict (MessageCallback M W)
  del_message_process_moudle name table = del_process_moudle name table

module _ {W : Type 0} where
  abbrev pub add_connection_process_moudle :
      Bytes
      → ConnectionCallback W
      → Dict (ConnectionCallback W)
      → Bool × Dict (ConnectionCallback W)
  add_connection_process_moudle name cb table = add_process_moudle name cb table

  abbrev pub del_connection_process_moudle :
      Bytes → Dict (ConnectionCallback W) → Bool × Dict (ConnectionCallback W)
  del_connection_process_moudle name table = del_process_moudle name table

module _ {M W : Type 0} (type_name : M → Bytes) where
  abbrev pub call_moudle : Option (MessageCallback M W) → M → ℕ → W → Run W
  call_moudle none msg conn w = ok w
  call_moudle (some cb) msg conn w = cb msg conn w

  unfoldable pub do_message : Dict (MessageCallback M W) → M → ℕ → W → Run W
  do_message table msg conn w = call_moudle (find (type_name msg) table) msg conn w

-- Every callback, in the table's order.
unfoldable pub do_connection_notify : {W : Type 0} → Dict (ConnectionCallback W) → ℕ → ℕ → W → Run W
do_connection_notify [] type conn w = ok w
do_connection_notify ((name, cb) ∷ table) type conn w = do
  w' ← cb type conn w
  do_connection_notify table type conn w'

-- What the server asks of asio and of the connection manager.
pub data ServerEffect : Type 0 where
  -- `m_acceptor.async_accept` into the new connection of this number
  accept : ℕ → ServerEffect
  -- `m_connection_manager.start`
  start_connection : ℕ → ServerEffect
  -- `m_timer.async_wait` for a second
  wait : ServerEffect
  cancel_timer : ServerEffect
  close_acceptor : ServerEffect
  -- `m_connection_manager.stop_all`
  stop_all_connections : ServerEffect

-- `connection` is the number of `m_connection`; the connections are numbered as they are made.
pub record Server : Type 0 where
  pub is_open : Bool
  pub made : ℕ
  pub connection : ℕ

-- Which of the five calls of the constructor fail.
pub record Failures : Type 0 where
  pub resolve : Bool
  pub open_protocol : Bool
  pub set_option : Bool
  pub bind : Bool
  pub listen : Bool

unfoldable pub construct : Failures → Server
construct f = record { is_open = not f.resolve && not f.open_protocol; made = 0; connection = 0 }

unfoldable pub start_impl : Server → Server × List ServerEffect
start_impl s = (record s { made = suc s.made; connection = s.made }, accept s.made ∷ [])

abbrev pub continue_timer : List ServerEffect
continue_timer = wait ∷ []

unfoldable pub start : Server → Server × List ServerEffect
unfolding start_impl
start s = let (s', effects) = start_impl s in (s', accept s.made ∷ continue_timer)

unfoldable pub stop : Server → Server × List ServerEffect
stop s = (record s { is_open = false }, cancel_timer ∷ close_acceptor ∷ stop_all_connections ∷ [])

unfoldable pub handle_accept : Bool → Server → Server × List ServerEffect
unfolding start_impl
handle_accept error s =
    let (s', effects) = start_impl s in
    if not s.is_open || error then (s, []) else (s', start_connection s.connection ∷ effects)

-- It does not look at its argument.
unfoldable pub on_tick : Bool → Server → Server × List ServerEffect
on_tick error s = (s, continue_timer)
