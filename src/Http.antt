-- ===== src/Http.antt =====
-- The HTTP side of the server: include/http_helper.hpp, http_connection and http_server.
pub mod Chars
pub mod Request
pub mod RequestParser
pub mod StatusLine
pub mod Headers
pub mod Form
pub mod Digits
