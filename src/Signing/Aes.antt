-- ===== src/Signing/Aes.antt =====
-- The encryption of openssl/sign.cpp (`initAES`, `aes_encrypt`, `aes_decrypt`), and `generate_AES`,
-- `encrypt_data` and `decrypt_data` of Server/server.cpp on it. The functions return a pointer to
-- their own buffer; what stands here is what the buffer holds when they return.
use mathlib.Core.Option.{bind}
use logger_verifier.KeyShare.Aes.{Aes, crypt}
use logger_verifier.Base.{
  ℕ, ◌+◌, ◌*◌, ◌/◌, ◌≤◌, ◌≡◌, refl, inl, inr, Option, none, some, List, [], ◌∷◌, ◌++◌, arith, leb,
  if◌then◌else◌, Bool-cases, length, c_string, NoNul, c_string-NoNul,
}

-- The size of the buffers of `encrypt_data` and `decrypt_data`.
abbrev pub data_size : ℕ
data_size = 514

-- A result that does not fit its buffer is written past it.
unfoldable pub fits_data : List ℕ → Option (List ℕ)
fits_data bytes = if leb (length bytes) data_size then some bytes else none

module _ (A : Aes) where
  -- The arrays that `initAES` clears first are written by `EVP_BytesToKey`.
  unfoldable pub init_aes : List ℕ → List ℕ → A.Key
  init_aes pass salt = A.bytes_to_key pass salt

  unfoldable pub aes_encrypt : A.Key → List ℕ → Option (List ℕ)
  unfolding crypt
  aes_encrypt = crypt A.encryption

  unfoldable pub aes_decrypt : A.Key → List ℕ → Option (List ℕ)
  unfolding crypt
  aes_decrypt = crypt A.decryption

  -- `generate_AES`: the new `key` and `iv`; the password ends at its first NUL, and there is no
  -- salt, for which the empty list stands. The file is opened and gets nothing.
  unfoldable pub generate_aes_key : List ℕ → A.Key
  unfolding init_aes
  generate_aes_key pass = init_aes (c_string pass) []

  unfoldable pub encrypt_data : A.Key → List ℕ → Option (List ℕ)
  unfolding fits_data
  encrypt_data key text = bind (aes_encrypt key (c_string text)) fits_data

  -- The length of the ciphertext is taken by `strlen`.
  unfoldable pub decrypt_data : A.Key → List ℕ → Option (List ℕ)
  unfolding fits_data
  decrypt_data key text = bind (aes_decrypt key (c_string text)) fits_data

  -- What OpenSSL documents of AES-256-CBC at a key: blocks of 16 bytes, the last one padded, and
  -- decryption undoes encryption.
  pub record IsCbc (key : A.Key) (cipher : List ℕ → List ℕ) : Type 0 where
    pub encrypts : (text : List ℕ) → aes_encrypt key text ≡ some (cipher text)
    pub decrypts : (text : List ℕ) → aes_decrypt key (cipher text) ≡ some text
    pub blocks : (text : List ℕ) → length (cipher text) ≡ (length text / 16 + 1) * 16

  -- A text of at most 511 bytes is encrypted, and a longer one overflows the buffer.
  pub encrypt_data-fits :
      (key : A.Key) (cipher : List ℕ → List ℕ) (text after : List ℕ)
      → IsCbc key cipher
      → NoNul text
      → encrypt_data key (text ++ 0 ∷ after)
        ≡ (if leb (length text) 511 then some (cipher text) else none)
  unfolding encrypt_data bind fits_data
  encrypt_data-fits key cipher text after cbc h =
      let ended = c_string-NoNul text after h in
      let encrypted = cbc.encrypts text in
      let size = cbc.blocks text in
      elim (Bool-cases (leb (length text) 511)) [ inl q ↦ ground arith | inr q ↦ ground arith ]

  -- The text comes back where its ciphertext has no NUL.
  pub decrypt_data-encrypt_data :
      (key : A.Key) (cipher : List ℕ → List ℕ) (text after after' : List ℕ)
      → IsCbc key cipher
      → NoNul text
      → length text ≤ 511
      → NoNul (cipher text)
      → bind (encrypt_data key (text ++ 0 ∷ after)) (λ c. decrypt_data key (c ++ 0 ∷ after'))
        ≡ some text
  unfolding decrypt_data bind fits_data
  decrypt_data-encrypt_data key cipher text after after' cbc h short h' =
      let encrypted = encrypt_data-fits key cipher text after cbc h in
      let ended = c_string-NoNul (cipher text) after' h' in
      let decrypted = cbc.decrypts text in ground arith

  -- Else `decrypt_data` is given the part of the ciphertext in front of its first NUL, the empty one
  -- where that is the first byte.
  pub decrypt_data-cut :
      (key : A.Key) (front rest : List ℕ)
      → NoNul front
      → decrypt_data key (front ++ 0 ∷ rest) ≡ bind (aes_decrypt key front) fits_data
  unfolding decrypt_data
  decrypt_data-cut key front rest h = rw (c_string-NoNul front rest h) refl
