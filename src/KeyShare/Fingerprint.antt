-- ===== src/KeyShare/Fingerprint.antt =====
-- The last step of helloworld/: the client encrypts the key that it has rebuilt, and the service
-- decrypts it with the one that it has selected.
use logger_verifier.Base64.Encode.{h_base64_encode}
use logger_verifier.Base64.RoundTrip.{h_base64_decode-encode}
use logger_verifier.Base64.Shape.{length-h_base64_encode}
use logger_verifier.KeyShare.Aes.{Aes, init_aes, encrypt, decrypt}
use logger_verifier.KeyShare.Client.{ask_fingerprint, message, salt_text, send_fingerprint}
use logger_verifier.KeyShare.Served.{Session, Fate, delivered, served, call-delivered}
use logger_verifier.KeyShare.Service.{
  Library, Greeter, cipher_size, maxline, salt_bytes, encrypt_fingerprint,
}
use logger_verifier.Base.{
  ℕ, ◌+◌, ◌≤◌, ◌<◌, ◌≡◌, refl, some, List, arith, length, All, IsByte, NoNul, c_string_self,
}

-- Decryption undoes encryption at the same key.
pub record IsCipher (A : Aes) : Type 0 where
  pub undoes :
      (key : A.Key) (text cipher : List ℕ)
      → encrypt A key text ≡ some cipher
      → decrypt A key cipher ≡ some text

salt_bytes-salt_text : (L : Library) → salt_bytes L salt_text ≡ some salt_text
unfolding salt_bytes
salt_bytes-salt_text L = refl

module _ (L : Library) (fate : ℕ → Fate) where
  encrypt_fingerprint-decrypts :
      (key cipher : List ℕ) (g : Greeter)
      → IsCipher L.aes
      → encrypt L.aes (init_aes L.aes key salt_text) key ≡ some cipher
      → All IsByte cipher
      → length cipher ≤ 189
      → NoNul key
      → length key < maxline
      → g.selected_key ≡ key
      → encrypt_fingerprint L (h_base64_encode cipher) salt_text g ≡ some (key, g)
  unfolding encrypt_fingerprint
  encrypt_fingerprint-decrypts key cipher g inv enc bytes fits text short selected =
      let room : length (h_base64_encode cipher) < cipher_size =
        omega (arith, (length-h_base64_encode cipher).0, fits) in
      let decoded = h_base64_decode-encode cipher bytes in
      let plain = inv.undoes _ key cipher enc in
      let self = c_string_self key text in let salt = salt_bytes-salt_text L in ground arith

  -- Where the ciphertext of the key fits, the call arrives and the service has selected the same
  -- key, the service replies with the key: what the client has encrypted and encoded, the service
  -- decodes and decrypts.
  pub send_fingerprint-echoes :
      (key cipher : List ℕ) (w : Session)
      → IsCipher L.aes
      → encrypt L.aes (init_aes L.aes key salt_text) key ≡ some cipher
      → All IsByte cipher
      → length cipher ≤ 189
      → NoNul key
      → length key < maxline
      → w.greeter.selected_key ≡ key
      → fate w.calls ≡ delivered
      → send_fingerprint (served L fate) L.aes key w ≡ some (key, record w { calls = w.calls + 1 })
  unfolding send_fingerprint ask_fingerprint message
  send_fingerprint-echoes key cipher w inv enc bytes fits text short selected sent =
      let reply =
        encrypt_fingerprint-decrypts key cipher w.greeter inv enc bytes fits text short selected in
      let answer =
        call-delivered L fate (encrypt_fingerprint L (h_base64_encode cipher) salt_text) w _ _ sent
          reply in
      ground arith
