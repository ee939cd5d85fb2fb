-- ===== src/Tests/HttpConnection.antt =====
-- A request over HTTP, and the next one on the same connection.
use avrouter.Prelude.{◌≡◌, refl, codes}
use avrouter.Http.Request.{extract_u64}

extract_u64-minus : extract_u64 (codes " -1 ") ≡ 18446744073709551615
unfolding extract_u64
extract_u64-minus = refl
