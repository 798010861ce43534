-- ===== src/KeyShare/Aes.antt =====
-- `initAES`, `encrypt` and `decrypt` of helloworld/bs64.h, over the calls of OpenSSL.
use mathlib.Core.Option.{bind}
use logger_verifier.Base.{ℕ, Option, some, List, ◌++◌}

-- One direction of a cipher of OpenSSL: `EVP_CIPHER_CTX_new`, the initialisation at a key, `Update`
-- and `Final`, with what a context holds. `none` is a result other than 1.
pub record Cipher (Key : Type 0) : Type 1 where
  pub Context : Type 0
  pub new : Option Context
  pub init : Key → Context → Option Context
  pub update : List ℕ → Context → Option (List ℕ × Context)
  pub final : Context → Option (List ℕ)

-- `bytes_to_key` is `EVP_BytesToKey` of the password and the salt, with the key and the vector.
pub record Aes : Type 1 where
  pub Key : Type 0
  pub bytes_to_key : List ℕ → List ℕ → Key
  pub encryption : Cipher Key
  pub decryption : Cipher Key

-- Both functions: the two parts of the output. `handleErrors` aborts.
unfoldable pub crypt : {Key : Type 0} → Cipher Key → Key → List ℕ → Option (List ℕ)
crypt C key text =
    bind (bind (bind C.new (C.init key)) (C.update text))
      (λ r. bind (C.final r.1) (λ rest. some (r.0 ++ rest)))

module _ (A : Aes) where
  unfoldable pub init_aes : List ℕ → List ℕ → A.Key
  init_aes pass salt = A.bytes_to_key pass salt

  unfoldable pub encrypt : A.Key → List ℕ → Option (List ℕ)
  unfolding crypt
  encrypt = crypt A.encryption

  unfoldable pub decrypt : A.Key → List ℕ → Option (List ℕ)
  unfolding crypt
  decrypt = crypt A.decryption
