-- ===== src/Tests.antt =====
-- Runs of the definitions on concrete inputs, and the theorems at inputs that meet their
-- hypotheses.
mod Serialization
mod RequestParser
mod Connection
mod Router
mod Forward
mod Login
mod Pool
mod Escape
mod Register
mod HttpConnection
mod HttpForm
mod HttpServer
mod Logging
mod CheckName
mod Relay
mod Internal
mod Csr
mod Utf8
mod Startup
mod Registration
mod LogIn
