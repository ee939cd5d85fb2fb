-- ===== src/Login/Blocks.antt =====
-- `RSA_public_decrypt` of a string of several blocks.
use avrouter.Prelude.{◌≡◌, List, [], ◌∷◌, ◌++◌, some, Bytes, length}
use avrouter.Login.{Crypto}

module _ (ssl : Crypto) (rsa : ssl.Rsa) where
  -- A block of the key's size, and what it decrypts to.
  pub record IsBlock (block : Bytes × Bytes) : Type 0 where
    pub sized : length block.0 ≡ ssl.rsa_size rsa
    pub decrypts : ssl.public_decrypt rsa block.0 ≡ some block.1

  abbrev pub ciphers : List (Bytes × Bytes) → Bytes
  ciphers [] = []
  ciphers ((cipher, plain) ∷ blocks) = cipher ++ ciphers blocks

  abbrev pub plains : List (Bytes × Bytes) → Bytes
  plains [] = []
  plains ((cipher, plain) ∷ blocks) = plain ++ plains blocks
