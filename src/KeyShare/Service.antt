-- ===== src/KeyShare/Service.antt =====
-- `GreeterServiceImpl` of helloworld/greeter_server.cc: its fields and the handlers of its calls.
use logger_verifier.Base.Run.{Run, pure, ◌>>=◌, need}
use logger_verifier.Base64.Decode.{h_base64_decode}
use logger_verifier.KeyShare.Aes.{Aes, init_aes, decrypt}
use logger_verifier.KeyShare.Text.{xor, tokenize}
use logger_verifier.Base.{
  ℕ, ◌+◌, Option, none, some, List, [], ◌∷◌, ◌++◌, ltb, if◌then◌else◌, length, get_elem?, take,
  codes, bytes_eq, c_string,
}

-- The code that is not of the repository: c-sss, the random numbers (`uniform n b` is the n-th
-- number drawn, from 0 to `b`), and OpenSSL.
pub record Library : Type 1 where
  pub generate_share_strings : List ℕ → ℕ → ℕ → List ℕ
  pub uniform : ℕ → ℕ → ℕ
  pub aes : Aes

-- `selected_key_num` is `none` while it is -1, `shares_string` while nobody has set the pointer.
pub record Greeter : Type 0 where
  pub shares_string : Option (List ℕ)
  pub selected_key_num : Option ℕ
  pub selected_key : List ℕ
  pub draws : ℕ

abbrev pub greeter : Greeter
greeter = record { shares_string = none; selected_key_num = none; selected_key = []; draws = 0 }

abbrev pub num_threashhold : ℕ
num_threashhold = 3

abbrev pub num_share : ℕ
num_share = 5

abbrev pub key_set : List (List ℕ)
key_set = codes "apple" ∷ codes "banana" ∷ codes "cranberry" ∷ codes "pear" ∷ codes "graph" ∷ []

-- The size of `xored`.
abbrev pub encode_size : ℕ
encode_size = 2048

-- The size of `tmp` in `EncryptFingerprint`.
abbrev pub cipher_size : ℕ
cipher_size = 256

-- `MAXLINE`, the size of the other buffers.
abbrev pub maxline : ℕ
maxline = 514

module _ (L : Library) where
  unfoldable pub draw : ℕ → Run Greeter ℕ
  draw bound g = some (L.uniform g.draws bound, record g { draws = g.draws + 1 })

  unfoldable pub generate_shares : ℕ → Run Greeter (Unit {0})
  generate_shares r = do
    secret ← need (get_elem? key_set r)
    λ g. some (
      tt,
      record g {
        selected_key = secret;
        shares_string = some (L.generate_share_strings secret num_share num_threashhold);
      },
    )

  unfoldable pub say_hello : List ℕ → Run Greeter (List ℕ)
  say_hello name = do
    r ← draw 4
    _ ← λ g. some (tt, record g { selected_key_num = some r })
    _ ← generate_shares r
    pure (codes "Hello " ++ name)

  -- The reply is read back from `xored` as a C string.
  unfoldable pub say_olleh : List ℕ → Run Greeter (List ℕ)
  say_olleh name = do xored ← need (xor encode_size name); pure (c_string xored)

  -- A number past the last token reads outside the vector.
  unfoldable pub get_share : List ℕ → Run Greeter (List ℕ)
  get_share name g = elim g.shares_string [
    | none ↦ none
    | some shares ↦
        (do r ← draw 2; token ← need (get_elem? (tokenize shares) r); pure (c_string token)) g
  ]

  -- `key_set[-1]` is read if no key was selected.
  unfoldable pub verify_key : List ℕ → Run Greeter (List ℕ)
  verify_key name g = elim g.selected_key_num [
    | none ↦ none
    | some r ↦
        (do
          key ← need (get_elem? key_set r)
          pure (
              if bytes_eq (c_string name) key
              then name ++ codes " is " ++ codes "Verified"
              else name ++ codes " is not" ++ codes "Verified"))
          g
  ]

  unfoldable pub get_threshhold : List ℕ → Run Greeter ℕ
  get_threshhold name = pure num_threashhold

  -- `memcpy` takes eight bytes, of which the salt with its NUL has to have as many.
  unfoldable pub salt_bytes : List ℕ → Option (List ℕ)
  salt_bytes salt = if ltb (length salt) 7 then none else some (take 8 (salt ++ 0 ∷ []))

  -- What `decrypt` is given is the decoded text; it is NULL if the text has no whole byte. The
  -- plaintext and its NUL have to fit, and the reply is that plaintext as a C string.
  unfoldable pub encrypt_fingerprint : List ℕ → List ℕ → Run Greeter (List ℕ)
  encrypt_fingerprint cipher salt g =
      (do
        salt ← need (salt_bytes salt)
        tmp ← need (if ltb (length cipher) cipher_size then some cipher else none)
        decoded ← need (h_base64_decode tmp)
        plaintext ← need (decrypt L.aes (init_aes L.aes (c_string g.selected_key) salt) decoded)
        _ ← need (if ltb (length plaintext) maxline then some tt else none)
        pure (c_string plaintext))
        g
