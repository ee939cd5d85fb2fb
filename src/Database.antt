-- ===== src/Database.antt =====
-- src/database.cpp: what the constructor makes of the database, and each call of the table of
-- users. The session of soci is a parameter: an operation of it gives `none` where it throws
-- `soci_error`. A future of `std::async` that nothing keeps is waited for, so the statements of a
-- call have run when it returns; its handler is only posted, and is run by the service of the
-- database.
use avrouter.Prelude.{
  ℕ, Bool, true, false, not, Option, none, some, Bytes, codes, take, ◌++◌, Run, ok, fault,
  null_pointer, if◌then◌else◌,
}

pub record Soci : Type 1 where
  pub Table : Type 0
  -- whether the session that a call takes from the pool has been opened; on one that has not, every
  -- statement throws
  pub is_open : Table → Bool
  -- SELECT of the row of a user: whether a row came whose name is not null
  pub select : Table → Bytes → Option Bool
  -- INSERT of name, key, mail and phone
  pub insert : Table → Bytes → Bytes → Bytes → Bytes → Option Table
  pub delete : Table → Bytes → Option Table
  -- UPDATE of the certificate of a user
  pub update_cert : Table → Bytes → Bytes → Option Table
  -- `PQescapeByteaConn`: the characters that it writes and the length that it gives for them, which
  -- counts the zero at their end
  pub escape_bytea_conn : Bytes → Bytes × ℕ

module _ (soci : Soci) where
  unfoldable pub pg_escape_bytea : Bytes → Bytes
  pg_escape_bytea bytea =
      let (escaped_chars, escaped_len) = soci.escape_bytea_conn bytea in
      take escaped_len escaped_chars

  abbrev free_name : Option Bool → Bool
  free_name none = false
  free_name (some got_data) = not got_data

  -- The argument that the handler is posted with.
  unfoldable pub availability_check : Bytes → soci.Table → Bool
  availability_check user_id table = free_name (soci.select table user_id)

  -- The handler's argument, and the table.
  unfoldable pub changed : soci.Table → Option soci.Table → Bool × soci.Table
  changed table none = (false, table)
  changed table (some table') = (true, table')

  unfoldable pub insert_free : Option Bool → Option soci.Table → soci.Table → Bool × soci.Table
  unfolding changed
  insert_free none inserted table = (false, table)
  insert_free (some true) inserted table = (false, table)
  insert_free (some false) inserted table = changed table inserted

  unfoldable pub register_user : Bytes → Bytes → Bytes → Bytes → soci.Table → Bool × soci.Table
  unfolding insert_free
  register_user user_id pubkey email telephone table =
      insert_free (soci.select table user_id)
        (soci.insert table user_id (pg_escape_bytea pubkey) email telephone) table

  unfoldable pub delete_user : Bytes → soci.Table → Bool × soci.Table
  unfolding changed
  delete_user user_id table = changed table (soci.delete table user_id)

  -- `pg_escape_bytea` comes before the statement, and reads from the backend of the session, which
  -- is a null pointer if that is not open.
  unfoldable pub update_user_cert : Bytes → Bytes → soci.Table → Run (Bool × soci.Table)
  unfolding changed
  update_user_cert user_id cert table =
      let updated = changed table (soci.update_cert table user_id (pg_escape_bytea cert)) in
      if soci.is_open table then ok updated else fault null_pointer

abbrev db_name : Bytes
db_name = codes "avim"

abbrev db_user_table : Bytes
db_user_table = codes "avim_user"

abbrev create_database : Bytes
create_database = codes "CREATE DATABASE " ++ db_name

-- The columns of the table.
abbrev columns : Bytes
columns =
    codes "(user_id text NOT NULL,"
    ++ (codes "mail text,"
        ++ (codes "phone text,"
            ++ (codes "cert bytea,"
                ++ (codes "public_key bytea NOT NULL,"
                    ++ (codes "private_key bytea,"
                        ++ (codes "allow boolean,"
                            ++ (codes "CONSTRAINT avim_user_pkey PRIMARY KEY(user_id)"
                                ++ codes ")")))))))

-- The table, and its owner, in one statement.
abbrev create_table : Bytes
create_table =
    codes "CREATE TABLE "
    ++ (db_user_table
        ++ (columns
            ++ (codes "WITH("
                ++ (codes "OIDS = FALSE"
                    ++ (codes ");"
                        ++ (codes "ALTER TABLE avim_user " ++ codes "OWNER TO postgres;"))))))

-- With `execute`, which gives `none` where it throws `soci_error`: a statement that is refused is
-- logged and leaves the database as it was.
unfoldable pub attempt : {D : Type 0} → (Bytes → D → Option D) → Bytes → D → D
attempt execute statement db = elim (execute statement db) [ none ↦ db | some db' ↦ db' ]

-- The constructor: the second statement is tried whatever came of the first.
unfoldable pub construct : {D : Type 0} → (Bytes → D → Option D) → D → D
construct execute db = attempt execute create_table (attempt execute create_database db)
