-- ===== src/Escape.antt =====
-- include/escape_string.hpp: strings for URLs and base64. Bit masks and shifts of a byte are
-- written as division and remainder.
pub mod Base64
pub mod Path
use avrouter.Prelude.{ℕ}
