-- ===== src/KeyShare/Client.antt =====
-- helloworld/greeter_client.cc: `GreeterClient` over the stub that gRPC generates, and the steps of
-- its `main`.
use logger_verifier.Base.Run.{Run, pure, ◌>>=◌, need}
use logger_verifier.Base64.Encode.{h_base64_encode}
use logger_verifier.KeyShare.Aes.{Aes, init_aes, encrypt}
use logger_verifier.KeyShare.Text.{xor, insert, write_share, read_share}
use logger_verifier.Base.{
  ℕ, zero, suc, Bool, true, false, Option, none, some, List, [], ltb, leb, ◌==◌, if◌then◌else◌,
  length, codes, c_string,
}

-- `Greeter::Stub`: a call gives the reply's message, or `none` where its status is not ok. The
-- threshold, an `int32`, is not negative.
pub record Stub : Type 1 where
  pub World : Type 0
  pub say_hello : List ℕ → Run World (Option (List ℕ))
  pub say_olleh : List ℕ → Run World (Option (List ℕ))
  pub get_share : List ℕ → Run World (Option (List ℕ))
  pub verify_key : List ℕ → Run World (Option (List ℕ))
  pub get_threshhold : List ℕ → Run World (Option ℕ)
  pub encrypt_fingerprint : List ℕ → List ℕ → Run World (Option (List ℕ))

-- What a method returns for a status.
unfoldable pub message : Option (List ℕ) → List ℕ
message none = codes "RPC failed"
message (some m) = m

abbrev pub max_try : ℕ
max_try = 20

abbrev pub salt_text : List ℕ
salt_text = codes "12345678"

-- The file `shares.key` as the client finds it: `none` where there is none, and whether it can be
-- opened for writing.
pub record SharesFile : Type 0 where
  pub content : Option (List ℕ)
  pub writable : Bool

-- What `write_share` leaves, which truncates the file that it opens.
unfoldable pub stored_shares : SharesFile → List (List ℕ) → Option (List ℕ)
unfolding write_share
stored_shares file shares = if file.writable then some (write_share shares) else file.content

module _ (S : Stub) where
  -- `GreeterClient::SayHello`, `SayOlleh`, `GetShare` and `VerifyKey`.
  unfoldable pub ask : (List ℕ → Run S.World (Option (List ℕ))) → List ℕ → Run S.World (List ℕ)
  ask method user = do r ← method user; pure (message r)

  -- A status that is not ok is thrown, and nothing catches it.
  unfoldable pub ask_threshhold : List ℕ → Run S.World ℕ
  ask_threshhold user = do r ← S.get_threshhold user; need r

  unfoldable pub ask_fingerprint : List ℕ → List ℕ → Run S.World (List ℕ)
  ask_fingerprint cipher salt = do r ← S.encrypt_fingerprint cipher salt; pure (message r)

  unfoldable pub c_hello_greeter : List ℕ → Run S.World (List ℕ)
  c_hello_greeter user = ask S.say_hello user

  -- The reply, and with the flag the text that is printed from `xored`, of 2048 bytes.
  unfoldable pub c_xor_greeter : List ℕ → Bool → Run S.World (List ℕ × Option (List ℕ))
  c_xor_greeter user flag = do
    reply ← ask S.say_olleh user
    elim flag [
      | true ↦ do xored ← need (xor 2048 reply); pure (reply, some (c_string xored))
      | false ↦ pure (reply, none)
    ]

  -- The loop of `c_GetThreshhold` with `i` at `max_try - left`: the shares in the set.
  unfoldable pub collect_shares : List ℕ → ℕ → ℕ → List (List ℕ) → Run S.World (List (List ℕ))
  collect_shares user num zero shares = pure shares
  collect_shares user num (suc left) shares = elim (leb (length shares) num) [
    | false ↦ pure shares
    | true ↦ do
      reply ← ask S.get_share user
      elim (length (insert (c_string reply) shares) == num) [
        | true ↦ pure (insert (c_string reply) shares)
        | false ↦ collect_shares user num left (insert (c_string reply) shares)
      ]
  ]

  -- The string that is read back from the file.
  unfoldable pub c_get_threshhold : SharesFile → List ℕ → Run S.World (List ℕ)
  c_get_threshhold file user = do
    num ← ask_threshhold user
    shares ← collect_shares user num max_try []
    pure (read_share (stored_shares file shares))

  -- `extract` is `extract_secret_from_share_strings`. The key, and the reply to it.
  unfoldable pub c_verify_key : (List ℕ → List ℕ) → List ℕ → Run S.World (List ℕ × List ℕ)
  c_verify_key extract shares = do
    let key = c_string (extract (c_string shares))
    reply ← ask S.verify_key key
    pure (key, reply)

  -- The fourth step of `main`. The ciphertext and a NUL have to fit into 514 bytes.
  unfoldable pub send_fingerprint : Aes → List ℕ → Run S.World (List ℕ)
  send_fingerprint A key = do
    cipher ← need (encrypt A (init_aes A key salt_text) key)
    _ ← need (if ltb (length cipher) 514 then some tt else none)
    ask_fingerprint (h_base64_encode cipher) salt_text

  -- `main`: what the last two calls reply.
  unfoldable pub greeter_client_main :
      Aes → (List ℕ → List ℕ) → SharesFile → Run S.World (List ℕ × List ℕ)
  greeter_client_main A extract file = do
    _ ← c_hello_greeter (codes "iceman")
    _ ← c_hello_greeter (codes "bob")
    _ ← c_xor_greeter (codes "alice") false
    _ ← c_xor_greeter (codes "alice") true
    shares ← c_get_threshhold file (codes "alice")
    verified ← c_verify_key extract shares
    reply ← send_fingerprint A verified.0
    pure (verified.1, reply)
