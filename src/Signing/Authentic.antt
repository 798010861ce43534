-- ===== src/Signing/Authentic.antt =====
-- Which signatures of openssl/sign.cpp Verifier/verify.cpp takes for authentic.
use mathlib.Core.Option.{bind}
use logger_verifier.Base.Decimal.{pos}
use logger_verifier.Signing.{
  Openssl, ends_in, calc_decode_length, rsa_sign, sign_message, base64_decode, auth_status,
  rsa_verify_signature, verify_signature,
}
use logger_verifier.Base.{
  ℕ, ◌-◌, ◌*◌, ◌/◌, ◌≤◌, ◌<◌, ◌≡◌, inl, inr, true, false, some, List, [], ◌∷◌, arith, if◌then◌else◌,
  Bool-cases, length, get_or, bytes_eq, c_string, NoNul, c_string-NoNul,
}

-- What OpenSSL documents of a pair of keys. A context to which nothing was given signs the empty
-- message, and of the signatures that the private key makes only that of the same message passes.
pub record IsPair (O : Openssl) (private : O.PrivateKey) (public : O.PublicKey) : Type 0 where
  pub signature : List ℕ → List ℕ
  pub context : O.SignContext
  pub begins : O.sign_init (some private) ≡ some context
  pub signs_nothing : O.sign_final context ≡ some (signature [])
  pub verifier : List ℕ → O.VerifyContext
  pub takes :
      (msg : List ℕ)
      → bind (O.verify_init (some public)) (O.verify_update msg) ≡ some (verifier msg)
  pub passes :
      (msg signed : List ℕ)
      → O.verify_final (signature signed) (verifier msg)
        ≡ (if bytes_eq msg signed then pos 1 else pos 0)

-- What it documents of the Base64 filter, for the bytes of a signature: lines of text, the last one
-- with its newline, that are longer by a third, and that give the bytes back.
pub record IsFilter (O : Openssl) (bytes : List ℕ) : Type 0 where
  pub text : NoNul (O.bio_encode bytes)
  pub some_text : 0 < length (O.bio_encode bytes)
  pub longer : length bytes ≤ length (O.bio_encode bytes) * 3 / 4
  pub newline : get_or (O.bio_encode bytes) (length (O.bio_encode bytes) - 1 - 0) 0 ≡ 10
  pub back : O.bio_decode (O.bio_encode bytes) ≡ some bytes

newline-ends_in :
    (text : List ℕ) → get_or text (length text - 1 - 0) 0 ≡ 10 → ends_in 0 text ≡ false
unfolding ends_in
newline-ends_in text e = ground arith

calc_decode_length-line :
    (text : List ℕ)
    → 0 < length text
    → ends_in 0 text ≡ false
    → calc_decode_length text ≡ some (length text * 3 / 4)
unfolding calc_decode_length
calc_decode_length-line text h e = rw e (ground arith)

module _ (O : Openssl) where
  base64_decode-bio_encode :
      (bytes : List ℕ) → IsFilter O bytes → base64_decode O (O.bio_encode bytes) ≡ some bytes
  unfolding base64_decode bind
  base64_decode-bio_encode bytes f =
      let size =
        calc_decode_length-line (O.bio_encode bytes) f.some_text
          (newline-ends_in (O.bio_encode bytes) f.newline) in
      let back = f.back in let fits = f.longer in ground arith

  -- What the logger's program makes of a hash and a private key.
  sign_message-signature :
      (private : O.PrivateKey) (public : O.PublicKey) (after key text : List ℕ)
      → (p : IsPair O private public) → IsFilter O (p.signature [])
      → O.read_private (c_string key) ≡ some private
      → sign_message O (0 ∷ after) key text ≡ some (O.bio_encode (p.signature []))
  unfolding sign_message rsa_sign bind
  sign_message-signature private public after key text p f e =
      let begins = p.begins in
      let signs = p.signs_nothing in
      let ended = c_string-NoNul (O.bio_encode (p.signature [])) after f.text in ground arith

  rsa_verify_signature-passes :
      (private : O.PrivateKey) (public : O.PublicKey) (msg signed : List ℕ)
      → (p : IsPair O private public)
      → rsa_verify_signature O (some public) (p.signature signed) msg
        ≡ (if bytes_eq msg signed then (true, true) else (true, false))
  unfolding rsa_verify_signature auth_status
  rsa_verify_signature-passes private public msg signed p =
      let taken = p.takes msg in
      let passes = p.passes msg signed in
      elim (Bool-cases (bytes_eq msg signed)) [ inl q ↦ ground arith | inr q ↦ ground arith ]

  -- A signature that the logger makes of a hash with its private key passes for a message, under
  -- the public key that belongs to it, exactly where that message is empty, whatever the hash was:
  -- of the hash that it was made for it does not pass. OpenSSL is taken to do what it documents,
  -- and a NUL to end the text that its Base64 filter leaves in memory.
  pub verify_signature-sign_message :
      (private : O.PrivateKey) (public : O.PublicKey)
      (after private_key public_key hash msg : List ℕ)
      → (p : IsPair O private public) → IsFilter O (p.signature [])
      → O.read_private (c_string private_key) ≡ some private
      → O.read_public (c_string public_key) ≡ some public
      → (signed_hash : List ℕ) × (sign_message O (0 ∷ after) private_key hash ≡ some signed_hash)
        × (verify_signature O public_key msg signed_hash ≡ some (bytes_eq msg []))
  unfolding verify_signature bind
  verify_signature-sign_message private public after private_key public_key hash msg p f e1 e2 =
      let signed = sign_message-signature private public after private_key hash p f e1 in
      let decoded = base64_decode-bio_encode (p.signature []) f in
      let passes = rsa_verify_signature-passes private public msg [] p in
      (
        O.bio_encode (p.signature []),
        signed,
        elim (Bool-cases (bytes_eq msg [])) [ inl q ↦ ground arith | inr q ↦ ground arith ],
      )
