-- ===== src/Register/Httpd.antt =====
-- `availability_check_httpd` (src/register_moudle.cpp): the check of a name for a client of the
-- HTTP server. The handler of the database is run with what the database says.
use avrouter.Prelude.{
  ℕ, Bool, List, [], ◌∷◌, ◌++◌, Option, Bytes, codes, Run, ok, ◌>>=◌, if◌then◌else◌,
}
use avrouter.Prelude.Decimal.{decimal}
use avrouter.Database.{Soci, availability_check}
use avrouter.Forward.{set_infos}
use avrouter.Http.Request.{Request, header_value}
use avrouter.Http.Form.{http_form, form_value}
use avrouter.HttpConnection.{HttpConnection, HttpEffect, write_response}

-- `{"code" : "%d"}`.
unfoldable pub answer_json : Bool → Bytes
answer_json result = codes "{\"code\" : \"" ++ (decimal (if result then 1 else 0) ++ codes "\"}")

module _ (soci : Soci) where
  -- The table of users, the clients by number, and what they ask of asio.
  pub record HttpWorld : Type 0 where
    pub table : soci.Table
    pub clients : ℕ → HttpConnection
    pub effects : List (ℕ × HttpEffect)

  abbrev tag : ℕ → List HttpEffect → List (ℕ × HttpEffect)
  tag conn [] = []
  tag conn (e ∷ es) = (conn, e) ∷ tag conn es

  unfoldable pub respond : Bytes → ℕ → HttpWorld → HttpWorld
  respond body conn w =
      let (client, effects) = write_response body (w.clients conn) in
      record w {
        clients = set_infos conn client w.clients;
        effects = w.effects ++ tag conn effects;
      }

  -- With the matches of the two regular expressions of `http_form`.
  unfoldable pub availability_check_httpd :
      (Bytes → Option Bytes) → (Bytes → Option Bytes) → Request → ℕ → HttpWorld → Run HttpWorld
  availability_check_httpd boundary_of name_of req conn w =
      let content_type = header_value (codes "content-type") req.headers in
      http_form boundary_of name_of req.body content_type >>= λ request_parameter.
      let user_name = form_value (codes "username") request_parameter in
      ok (respond (answer_json (availability_check soci user_name w.table)) conn w)
