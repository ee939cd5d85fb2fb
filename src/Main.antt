-- ===== src/Main.antt =====
-- src/main.cpp: which module handles which message, which is told of connections, and which handles
-- which uri. The modules are parameters.
pub mod Dispatch
pub mod CheckName
pub mod Wire
pub mod LogIn
pub mod Relay
pub mod Registration
pub mod Startup
use avrouter.Prelude.{ℕ, List, [], ◌∷◌, Bytes, codes}
use avrouter.Prelude.Dict.{Dict}
use avrouter.Login.{quit}
use avrouter.IoServicePool.{IoServicePool, PoolEffect}
use avrouter.IoServicePool as Pool
use avrouter.Router.{
  MessageCallback, ConnectionCallback, Server, ServerEffect, add_message_process_moudle,
  add_connection_process_moudle,
}
use avrouter.Router as Router
use avrouter.HttpServer.{HttpCallback, add_uri_handler}

-- The operations of the modules that `main` registers.
pub record Moudles (M W : Type 0) : Type 0 where
  pub availability_check : MessageCallback M W
  pub user_register : MessageCallback M W
  pub process_hello_message : MessageCallback M W
  pub process_login_message : MessageCallback M W
  pub process_packet : MessageCallback M W
  pub connection_notify : ConnectionCallback W

module _ {M W : Type 0} (m : Moudles M W) where
  unfoldable pub messages : Dict (MessageCallback M W)
  messages =
      let t1 =
        (add_message_process_moudle (codes "proto.username_availability_check") m.availability_check
          []).1 in
      let t2 = (add_message_process_moudle (codes "proto.user_register") m.user_register t1).1 in
      let t3 =
        (add_message_process_moudle (codes "proto.client_hello") m.process_hello_message t2).1 in
      let t4 = (add_message_process_moudle (codes "proto.login") m.process_login_message t3).1 in
      (add_message_process_moudle (codes "proto.avpacket") m.process_packet t4).1

  unfoldable pub notices : Dict (ConnectionCallback W)
  notices = (add_connection_process_moudle (codes "proto.avpacket") m.connection_notify []).1

abbrev pub check_uri : Bytes
check_uri = codes "/username_availability_check.jsp"

unfoldable pub uris : {W : Type 0} → HttpCallback W → Dict (HttpCallback W)
uris availability_check_httpd = (add_uri_handler check_uri availability_check_httpd []).1

-- The calls of `terminator`, in their order. The HTTP server is not among those that are stopped.
pub data StopEffect : Type 0 where
  of_login : List ServerEffect → StopEffect
  of_router : List ServerEffect → StopEffect
  of_pool : List PoolEffect → StopEffect

unfoldable pub terminator : IoServicePool → Server → Server × List StopEffect
terminator ios serv =
    let (stopped, effects) = Router.stop serv in
    (stopped, of_login quit ∷ of_router effects ∷ of_pool (Pool.stop ios) ∷ [])
