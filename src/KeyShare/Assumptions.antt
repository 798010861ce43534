-- ===== src/KeyShare/Assumptions.antt =====
-- What the steps of the client's `main` of helloworld/ rely on, and that its keys are texts.
use logger_verifier.KeyShare.Aes.{init_aes, encrypt}
use logger_verifier.KeyShare.Answered.{IsShare}
use logger_verifier.KeyShare.Client.{salt_text}
use logger_verifier.KeyShare.Fingerprint.{IsCipher}
use logger_verifier.KeyShare.Service.{Library, num_threashhold, num_share, key_set, maxline}
use logger_verifier.KeyShare.Sets.{IsSorted}
use logger_verifier.KeyShare.Text.{write_share}
use logger_verifier.KeyShare.Tokens.{IsToken}
use logger_verifier.Base.{
  ℕ, ◌≤◌, ◌<◌, ◌≡◌, refl, ◌≢◌, Bool, true, not, ◌&&◌, some, List, [], ◌∷◌, arith, ltb, ◌==◌, length,
  get_elem?, All, IsByte, c_string, NoNul, All-append, All-get_elem?,
}

-- What the client's steps rely on of c-sss: a secret of `key_set` is written as lines, and any
-- three different shares of the first three give it back.
pub record IsSharing (L : Library) (extract : List ℕ → List ℕ) : Type 0 where
  pub shares : List ℕ → List (List ℕ)
  pub writes :
      (r : ℕ) (key : List ℕ)
      → get_elem? key_set r ≡ some key
      → L.generate_share_strings key num_share num_threashhold ≡ write_share (shares key)
  pub tokens : (r : ℕ) (key : List ℕ) → get_elem? key_set r ≡ some key → All IsToken (shares key)
  pub many :
      (r : ℕ) (key : List ℕ)
      → get_elem? key_set r ≡ some key
      → num_threashhold ≤ length (shares key)
  pub rebuilds :
      (r : ℕ) (key : List ℕ) (some_shares : List (List ℕ))
      → get_elem? key_set r ≡ some key
      → IsSorted some_shares
      → All (IsShare (shares key)) some_shares
      → length some_shares ≡ num_threashhold
      → c_string (extract (write_share some_shares)) ≡ key

-- The keys can be encrypted, and their ciphertexts fit into the buffers.
pub record CanEncrypt (L : Library) : Type 0 where
  pub undoes : IsCipher L.aes
  pub ciphertext :
      (r : ℕ) (key : List ℕ)
      → get_elem? key_set r ≡ some key
      → (cipher : List ℕ) × (encrypt L.aes (init_aes L.aes key salt_text) key ≡ some cipher)
        × All IsByte cipher
        × (length cipher ≤ 189)

-- A text of bytes without a NUL.
unfoldable pub plain : List ℕ → Bool
plain [] = true
plain (c ∷ cs) = not (c == 0) && ltb c 256 && plain cs

pub plain-NoNul : (cs : List ℕ) → plain cs ≡ true → NoNul cs
unfolding plain
plain-NoNul [] h = tt
plain-NoNul (c ∷ cs) h = ((λ e. ground arith), plain-NoNul cs (ground arith))

pub plain-IsByte : (cs : List ℕ) → plain cs ≡ true → All IsByte cs
unfolding plain
plain-IsByte [] h = tt
plain-IsByte (c ∷ cs) h = (ground arith, plain-IsByte cs (ground arith))

pub write_share-NoNul : (ts : List (List ℕ)) → All NoNul ts → NoNul (write_share ts)
unfolding write_share
write_share-NoNul [] h = tt
write_share-NoNul (t ∷ ts) (ht, h) =
    All-append (λ c. c ≢ 0) t _ ht ((λ e. ground arith), write_share-NoNul ts h)

pub key_set-plain :
    (r : ℕ) (key : List ℕ)
    → get_elem? key_set r ≡ some key
    → (plain key ≡ true) × (length key < maxline)
unfolding plain
key_set-plain r key e =
    All-get_elem? (λ k. (plain k ≡ true) × (length k < maxline)) key_set r key
      (
        (refl, omega arith),
        (
          (refl, omega arith),
          ((refl, omega arith), ((refl, omega arith), ((refl, omega arith), tt))),
        ),
      )
      e

-- The shares that are collected are texts.
pub shares-NoNul : (ts sub : List (List ℕ)) → All IsToken ts → All (IsShare ts) sub → All NoNul sub
shares-NoNul ts [] tokens h = tt
shares-NoNul ts (s ∷ ss) tokens ((r, low, e), h) =
    ((All-get_elem? IsToken ts r s tokens e).text, shares-NoNul ts ss tokens h)
