-- ===== src/Signing.antt =====
-- The signatures: `signMessage` of openssl/sign.cpp, with which the logger signs, and
-- `verifySignature` of Verifier/verify.cpp, over the calls of OpenSSL, a parameter.
pub mod Authentic
pub mod Keys
pub mod Aes
mod Tests
use mathlib.Core.Option.{bind}
use logger_verifier.Base.Decimal.{ℤ, pos, negsuc}
use logger_verifier.Base.{
  ℕ, ◌+◌, ◌-◌, ◌*◌, ◌/◌, Bool, true, false, ◌&&◌, ◌||◌, Option, none, some, List, ◌++◌, ltb, leb,
  ◌==◌, if◌then◌else◌, length, get_or, c_string,
}

-- A key is read from its PEM text; a key that could not be read is a NULL that the calls get.
-- `sign_final` stands for both calls of `EVP_DigestSignFinal`, `none` for a result that is not
-- positive. `bio_encode` is what the Base64 filter of OpenSSL writes, `bio_decode` what `BIO_read`
-- gets from it, with `none` for -1.
pub record Openssl : Type 1 where
  pub PrivateKey : Type 0
  pub PublicKey : Type 0
  pub SignContext : Type 0
  pub VerifyContext : Type 0
  pub read_private : List ℕ → Option PrivateKey
  pub read_public : List ℕ → Option PublicKey
  pub sign_init : Option PrivateKey → Option SignContext
  pub sign_update : List ℕ → SignContext → Option SignContext
  pub sign_final : SignContext → Option (List ℕ)
  pub verify_init : Option PublicKey → Option VerifyContext
  pub verify_update : List ℕ → VerifyContext → Option VerifyContext
  pub verify_final : List ℕ → VerifyContext → ℤ
  pub bio_encode : List ℕ → List ℕ
  pub bio_decode : List ℕ → Option (List ℕ)

-- The last byte of a text, and the one before it.
unfoldable pub ends_in : ℕ → List ℕ → Bool
ends_in k string = get_or string (length string - 1 - k) 0 == b'='

-- `calcDecodeLength`: an empty text, or a single `=`, is read in front of its first byte; a length
-- below 0 is that of no buffer.
unfoldable pub calc_decode_length : List ℕ → Option ℕ
calc_decode_length string =
    let n = length string in
    let padding = if ends_in 0 string then (if ends_in 1 string then 2 else 1) else 0 in
    if n == 0 || (n == 1 && ends_in 0 string) || ltb (n * 3 / 4) padding
    then none
    else some (n * 3 / 4 - padding)

-- The end of `RSAVerifySignature`: its result, and `Authentic`.
unfoldable pub auth_status : ℤ → Bool × Bool
auth_status (pos n) =
    if n == 1 then (true, true) else if n == 0 then (true, false) else (false, false)
auth_status (negsuc n) = (false, false)

module _ (O : Openssl) where
  -- `RSASign`: the call of `EVP_DigestSignUpdate` is a comment.
  unfoldable pub rsa_sign : Option O.PrivateKey → List ℕ → Option (List ℕ)
  rsa_sign rsa msg = bind (O.sign_init rsa) O.sign_final

  -- `signMessage`, read as a C string. It goes on where `RSASign` fails, with a pointer that was
  -- never set. The text of the Base64 filter has no NUL; `after` is what memory holds behind it.
  unfoldable pub sign_message : List ℕ → List ℕ → List ℕ → Option (List ℕ)
  sign_message after private_key plain_text =
      bind (rsa_sign (O.read_private (c_string private_key)) plain_text)
        (λ enc. some (c_string (O.bio_encode enc ++ after)))

  -- `Base64Decode`: the buffer is one byte longer than the length that was computed.
  unfoldable pub base64_decode : List ℕ → Option (List ℕ)
  base64_decode text = bind (calc_decode_length text) (λ size.
      bind (O.bio_decode text)
        (λ bytes. if leb (length bytes) (size + 1) then some bytes else none))

  unfoldable pub rsa_verify_signature : Option O.PublicKey → List ℕ → List ℕ → Bool × Bool
  rsa_verify_signature rsa msg_hash msg = elim (bind (O.verify_init rsa) (O.verify_update msg)) [
    | none ↦ (false, false)
    | some ctx ↦ auth_status (O.verify_final msg_hash ctx)
  ]

  unfoldable pub verify_signature : List ℕ → List ℕ → List ℕ → Option Bool
  verify_signature public_key plain_text signature = bind (base64_decode signature) (λ enc.
      let (result, authentic) =
        rsa_verify_signature (O.read_public (c_string public_key)) enc plain_text in
      some (result && authentic))
