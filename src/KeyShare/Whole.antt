-- ===== src/KeyShare/Whole.antt =====
-- The whole of helloworld/: the steps of the client's `main` against the service.
use logger_verifier.KeyShare.Aes.{Aes}
use logger_verifier.KeyShare.Client.{
  SharesFile, c_hello_greeter, c_xor_greeter, c_get_threshhold, greeter_client_main,
}
use logger_verifier.KeyShare.Served.{Session, Fate, served}
use logger_verifier.KeyShare.Service.{Library, num_threashhold}
use logger_verifier.KeyShare.Assumptions.{IsSharing}
use logger_verifier.KeyShare.Text.{write_share}
use logger_verifier.Base.{ℕ, ◌+◌, ◌<◌, ◌≡◌, true, false, Option, some, List, ◌++◌, length, codes}

module _ (L : Library) (fate : ℕ → Fate) (extract : List ℕ → List ℕ)
    (sharing : IsSharing L extract) where
  -- `main` ends with the replies to `key`, and the service has selected it.
  abbrev pub MainVerifies : SharesFile → Session → List ℕ → Type 0
  MainVerifies file w key =
      (w' : Session) × (greeter_client_main (served L fate) L.aes extract file w
        ≡ some ((key ++ codes " is " ++ codes "Verified", key), w'))
      × (w'.greeter.selected_key ≡ key)

  -- The four calls of `main` that greet lead to the session `w4`, whose key is `key`. There
  -- `c_GetThreshhold` makes 21 calls and keeps fewer than three shares.
  abbrev pub TooFewShares : SharesFile → Session → List ℕ → Type 0
  TooFewShares file w key =
      (w1 : Session) × (w2 : Session) × (w3 : Session) × (w4 : Session) × (w5 : Session)
      × (reply1 : List ℕ) × (reply2 : List ℕ) × (out3 : List ℕ × Option (List ℕ)) × (out4 : List ℕ
          × Option (List ℕ))
      × (sub : List (List ℕ)) × (c_hello_greeter (served L fate) (codes "iceman") w
          ≡ some (reply1, w1))
      × (c_hello_greeter (served L fate) (codes "bob") w1 ≡ some (reply2, w2))
      × (c_xor_greeter (served L fate) (codes "alice") false w2 ≡ some (out3, w3))
      × (c_xor_greeter (served L fate) (codes "alice") true w3 ≡ some (out4, w4))
      × (w4.greeter.selected_key ≡ key)
      × (c_get_threshhold (served L fate) file (codes "alice") w4 ≡ some (write_share sub, w5))
      × (length sub < num_threashhold)
      × (w5.calls ≡ w4.calls + 21)
