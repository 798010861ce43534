-- ===== src/Signing/Keys.antt =====
-- The keys: `createPrivateRSA`, `createPublicRSA`, `genPrivateRSA` and `genPublicRSA` of
-- openssl/sign.cpp, and `key_generation` of Logger/Logger.cpp, which saves the public key.
use logger_verifier.Signing.{Openssl}
use logger_verifier.Base.{
  ℕ, ◌≡◌, refl, Bool, Option, some, List, if◌then◌else◌, c_string, NoNul, c_string_self,
}

-- `RSA_generate_key` draws on a source of random numbers, and may give NULL. `write_private` and
-- `write_public` are the texts that the memory BIO holds after `PEM_write_bio_RSAPrivateKey` and
-- `PEM_write_bio_RSA_PUBKEY`, for a NULL as well.
pub record KeyMaker (O : Openssl) : Type 1 where
  pub World : Type 0
  pub generate : World → Option O.PrivateKey × World
  pub write_private : Option O.PrivateKey → List ℕ
  pub write_public : Option O.PrivateKey → List ℕ

-- The globals `privateKey` and `publicKey`, and the file at `pubkeyfile_path`.
pub record Keys : Type 0 where
  pub private_key : List ℕ
  pub public_key : List ℕ
  pub pubkey_file : List ℕ

module _ (O : Openssl) where
  -- A text that no key can be read from, and a BIO that cannot be made, give NULL.
  unfoldable pub create_private_rsa : List ℕ → Option O.PrivateKey
  create_private_rsa key = O.read_private (c_string key)

  unfoldable pub create_public_rsa : List ℕ → Option O.PublicKey
  create_public_rsa key = O.read_public (c_string key)

  module _ (K : KeyMaker O) where
    -- The buffer is one byte longer than the text and all 0 before; the global gets the C string.
    unfoldable pub gen_private_rsa : Keys → K.World → (Option O.PrivateKey × Keys) × K.World
    gen_private_rsa keys w =
        let (rsa, w') = K.generate w in
        ((rsa, record keys { private_key = c_string (K.write_private rsa) }), w')

    unfoldable pub gen_public_rsa : Option O.PrivateKey → List ℕ
    gen_public_rsa rsa = c_string (K.write_public rsa)

    -- `key_generation`; `is_open` tells whether the file could be opened, which empties it.
    unfoldable pub key_generation : Bool → Keys → K.World → (ℕ × Keys) × K.World
    unfolding gen_private_rsa
    key_generation is_open keys w =
        let ((rsa, keys1), w') = gen_private_rsa keys w in
        let public = gen_public_rsa rsa in
        let saved = if is_open then public else keys.pubkey_file in
        ((0, record keys1 { public_key = public; pubkey_file = saved }), w')

    -- What OpenSSL documents of the two texts of a key: they are texts, and give the key and its
    -- public half back.
    pub record IsPem (private : O.PrivateKey) (public : O.PublicKey) : Type 0 where
      pub private_text : NoNul (K.write_private (some private))
      pub public_text : NoNul (K.write_public (some private))
      pub private_back : O.read_private (K.write_private (some private)) ≡ some private
      pub public_back : O.read_public (K.write_public (some private)) ≡ some public

    -- The key that was generated can be read from the global, and its public half from the global;
    -- the file has it where it could be opened, and else stays.
    pub key_generation-keys :
        (private : O.PrivateKey) (public : O.PublicKey) (is_open : Bool) (keys : Keys)
        (w w' : K.World)
        → IsPem private public
        → K.generate w ≡ (some private, w')
        → (made : Keys) × (key_generation is_open keys w ≡ ((0, made), w'))
          × (create_private_rsa made.private_key ≡ some private)
          × (create_public_rsa made.public_key ≡ some public)
          × (made.pubkey_file ≡ (if is_open then made.public_key else keys.pubkey_file))
    unfolding key_generation gen_private_rsa gen_public_rsa create_private_rsa create_public_rsa
    key_generation-keys private public is_open keys w w' pem e =
        let private_text : List ℕ = K.write_private (some private) in
        let public_text : List ℕ = K.write_public (some private) in
        let e1 : c_string private_text ≡ private_text = c_string_self _ pem.private_text in
        let e2 : c_string public_text ≡ public_text = c_string_self _ pem.public_text in
        (
          record {
            private_key = private_text;
            public_key = public_text;
            pubkey_file = if is_open then public_text else keys.pubkey_file;
          },
          rw (e, e1, e2),
          rw (create_private_rsa, e1) pem.private_back,
          rw (create_public_rsa, e2) pem.public_back,
          refl,
        )
