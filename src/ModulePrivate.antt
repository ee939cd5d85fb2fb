-- ===== src/ModulePrivate.antt =====
-- src/connection.cpp, the end: `m_module_private_info_ptrs`, the map from names to `boost::any` in
-- which the modules keep what they know of a connection.

use avrouter.Prelude.{
  ◌≡◌, Bytes, Option, none, some, Run, ok, fault, bad_any_cast, if◌then◌else◌, arith,
}
use avrouter.Prelude.Dict.{Dict, find, assign, find-assign}
use avrouter.Prelude.{equal, equal_iff}

-- `boost::any` with the types that the modules store; `Cert` is a `shared_ptr<X509>`.
pub data Any (Cert : Type 0) : Type 0 where
  empty_any : Any Cert
  -- std::string
  of_string : Bytes → Any Cert
  -- std::vector<uint8_t>
  of_bytes : Bytes → Any Cert
  of_cert : Cert → Any Cert

module _ {Cert : Type 0} where
  -- `boost::any_cast<std::string>`.
  abbrev pub cast_string : Any Cert → Run Bytes
  cast_string empty_any = fault bad_any_cast
  cast_string (of_string s) = ok s
  cast_string (of_bytes bytes) = fault bad_any_cast
  cast_string (of_cert cert) = fault bad_any_cast

  abbrev or_empty : Option (Any Cert) → Any Cert
  or_empty none = empty_any
  or_empty (some value) = value

  -- The value that `retrive_module_private` returns.
  unfoldable pub retrive_module_private : Bytes → Dict (Any Cert) → Any Cert
  retrive_module_private name infos = or_empty (find name infos)

  -- What it leaves: `operator[]` makes an empty entry where there is none.
  unfoldable pub after_retrive : Bytes → Dict (Any Cert) → Dict (Any Cert)
  after_retrive name infos = assign name (retrive_module_private name infos) infos

  unfoldable pub store_module_private : Bytes → Any Cert → Dict (Any Cert) → Dict (Any Cert)
  store_module_private name value infos = assign name value infos

  pub retrive-store :
      (name other : Bytes) (value : Any Cert) (infos : Dict (Any Cert))
      → retrive_module_private other (store_module_private name value infos)
        ≡ (if equal name other then value else retrive_module_private other infos)
  unfolding retrive_module_private store_module_private
  retrive-store name other value infos = ground (arith, find-assign name other value infos)

  pub retrive-after_retrive :
      (name other : Bytes) (infos : Dict (Any Cert))
      → retrive_module_private other (after_retrive name infos) ≡ retrive_module_private other infos
  unfolding retrive_module_private after_retrive
  retrive-after_retrive name other infos = ground (
    arith,
    equal_iff name other,
    find-assign name other (retrive_module_private name infos) infos,
  )
