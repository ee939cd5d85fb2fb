-- ===== src/Lib.antt =====
-- avrouter, a router of instant messages: a model of its C++ code, with theorems about it. A client
-- sends protobuf messages in packets over TCP. `connection` cuts the stream into packets,
-- `serialization` decodes them, `router_server` hands each message to the module that is registered
-- for its type, and the modules answer by `connection::write_msg`: `login_moudle` checks a
-- certificate, `register_moudle` registers a name with the `database` and a certificate authority, and
-- `forward_moudle` passes packets on to other connections. On the HTTP side `http_server` accepts
-- clients, `http_connection` reads their requests with `request_parser` and hands them to the server,
-- which looks for the handler of the uri; the one that `main` registers reads an `http_form`, asks the
-- `database` and answers by `http_connection::write_response`. `logging` writes what all log to files.
--
-- Which file models what (paths from the root of the repository):
--   Serialization.antt       include/serialization.hpp: create_message, encode, decode
--   Connection.antt          src/connection.cpp: start, stop, close, the three handlers, write_msg,
--                            do_write. A handler gives the new connection and its calls of others
--                            in their order. Connection/WriteQueue runs it against the event loop
--                            and asio's writes, Connection/Stream against asio's reads.
--   ModulePrivate.antt       src/connection.cpp: retrive_module_private, store_module_private
--   Router.antt              src/router_server.cpp: the constructor, the tables of callbacks,
--                            do_message, do_connection_notify, start, stop, handle_accept, on_tick
--   Forward.antt             src/forward_moudle.cpp: process_packet, connection_notify
--   Login.antt               src/login_moudle.cpp: process_hello_message, process_login_message,
--                            RSA_public_decrypt, cert_validater
--   ConnectionManager.antt   include/connection.hpp: connection_manager
--   IoServicePool.antt       src/io_service_pool.cpp: the services, get_io_service, run, stop
--   Register.antt            src/register_moudle.cpp: async_read_protobuf_message, availability_check,
--                            user_register. Register/History runs registrations that overlap.
--   Register/Csr.antt        src/register_moudle.cpp: async_send_csr_coro and async_send_csr, over the
--                            network to the certificate authority
--   Database.antt            src/database.cpp: the constructor, the four calls, pg_escape_bytea
--   Escape/Path.antt, Escape/Base64.antt
--                            include/escape_string.hpp
--   HttpConnection.antt      src/http_connection.cpp: start, stop, the handlers of reads and writes,
--                            write_response
--   HttpManager.antt         include/http_connection.hpp: http_connection_manager
--   HttpServer.antt          src/http_server.cpp: the constructor, start, stop, handle_accept, on_tick,
--                            handle_request, add_uri_handler. HttpServer/Shutdown runs it with its
--                            connections and its timer.
--   Main.antt                src/main.cpp: which operation is registered for what, terminator. Main/Relay,
--                            Main/LogIn, Main/Registration and Main/CheckName follow a packet, a login,
--                            a registration and a request over HTTP through the whole server.
--   Main/Startup.antt        src/main.cpp: main, from its options to the end of the event loop
--   Register/Httpd.antt      src/register_moudle.cpp: availability_check_httpd
--   Logging.antt             include/logging.hpp: auto_logger_file, output_console, logger_writer
--   Logging/Lines.antt       include/logging.hpp: time_now_string, logger, INIT_LOGGER, AUTO_LOGGER
--   Internal.antt            include/internal.hpp: gettime, time_to_string, to_string, add_suffix,
--                            endpoint_to_string
--   Utf8.antt                include/utf8.hpp: all conversions
--   Http/StatusLine.antt, Http/Headers.antt
--                            include/http_helper.hpp: parse_http_status_line, parse_http_headers,
--                            check_header
--   Http/Form.antt           include/http_helper.hpp: http_form
--   Http/Request.antt, Http/RequestParser.antt, Http/Chars.antt
--                            include/http_helper.hpp: request, request_parser
--   Prelude.antt             lists, byte strings, machine words, faults and maps that all share
--   Tests.antt               runs on concrete inputs
--
-- Bytes are numbers, strings are lists of them. An `int` is its bit pattern, a number below 2 ^ 32,
-- and where the code compares or converts it the sign is read off the pattern. `Run` is the result
-- of code that may have undefined behaviour or throw an exception that nothing catches: both are a
-- `fault`, which ends the run. Connections are numbers where only their identity matters.
--
-- asio, protobuf, soci and OpenSSL are parameters or effects. What is used of them is said where it is used:
-- that protobuf parses what it has serialised (`IsRegistered`), that asio completes a read when its
-- bytes are there and completes writes in their order, that OpenSSL gives a result or
-- an error, that the statements of SQL do to the table what they say (`IsUp`).
-- `pump` takes the number of reads that complete, two for each packet; `decrypt_blocks` takes the
-- length of the string as its fuel, which is enough because every block has a byte or more, and
-- `unescape_from` and `ansi_wide_from` the same, because each turn takes a character or more;
-- `split_from` takes one more, because each turn goes past a boundary and two characters; a number is
-- printed with twenty digits at most, which a `size_t` has. `poll_writes` takes the ten turns of the
-- code, and a coroutine is a function of what each of its waits gives. A handler that the database
-- posts to its own io_service waits there until `turns` runs it, between the posts of the authority
-- or behind them. A connection is known by its address where the code knows it so, and another may
-- have the address later. A file can be opened or removed, or it cannot, for the whole run.
--
-- Not modelled: the locks (every table is guarded by its own), the threads, the texts that the
-- program logs, the parser of the options of main, the code that protoc generates, the part of
-- internal.hpp and of logging.hpp for Windows, the certificate of the root, and the copies of libpq
-- and OpenSSL. What the two regular expressions of `http_form` match is a parameter, and so is what
-- boost::filesystem and boost::date_time make of a path and a day, what mbtowc, wctomb and
-- boost::locale make of a text, the clock, and the arithmetic and the printing of a `float`.
pub mod Connection
pub mod ConnectionManager
pub mod Database
pub mod Escape
pub mod Forward
pub mod Http
pub mod HttpConnection
pub mod HttpManager
pub mod HttpServer
pub mod Internal
pub mod IoServicePool
pub mod Logging
pub mod Login
pub mod Main
pub mod ModulePrivate
pub mod Prelude
pub mod Register
pub mod Router
pub mod Serialization
pub mod Tests
pub mod Utf8
