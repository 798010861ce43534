-- ===== src/KeyShare/Sample.antt =====
-- A library of secret sharing to try the theorems on: it writes a digit before the secret, and its
-- cipher leaves a text as it is.
use mathlib.Core.Option.{bind}
use logger_verifier.KeyShare.Aes.{Aes, Cipher, crypt, encrypt, decrypt}
use logger_verifier.KeyShare.Answered.{IsShare}
use logger_verifier.KeyShare.Fingerprint.{IsCipher}
use logger_verifier.KeyShare.Hidden.{until}
use logger_verifier.KeyShare.Service.{Library, key_set}
use logger_verifier.KeyShare.Assumptions.{
  IsSharing, CanEncrypt, plain-NoNul, plain-IsByte, key_set-plain,
}
use logger_verifier.KeyShare.Text.{is_separator, write_share}
use logger_verifier.KeyShare.Tokens.{IsToken}
use logger_verifier.Base.{
  ℕ, zero, suc, ◌%◌, ◌≤◌, min, ◌≡◌, refl, sym, ap, ◌≢◌, Bool, true, false, not, ◌&&◌, some, List,
  [], ◌∷◌, ◌++◌, arith, length, get_elem?, drop, All, c_string, NoNul, c_string_self, All-get_elem?,
}

abbrev copying : Cipher (List ℕ)
copying = record {
  Context = List ℕ;
  new = some [];
  init = λ key c. some c;
  update = λ text c. some ([], text);
  final = λ c. some c;
}

abbrev pub aes : Aes
aes = record {
  Key = List ℕ;
  bytes_to_key = λ pass salt. pass ++ salt;
  encryption = copying;
  decryption = copying;
}

abbrev pub toy_shares : List ℕ → List (List ℕ)
toy_shares key = (b'1' ∷ key) ∷ (b'2' ∷ key) ∷ (b'3' ∷ key) ∷ []

abbrev pub library : Library
library = record {
  generate_share_strings = λ secret n t. write_share (toy_shares secret);
  uniform = λ i b. min b (i % 3);
  aes = aes;
}

pub toy_extract : List ℕ → List ℕ
unfolding until
toy_extract text = drop 1 (until 10 text)

pub encrypt_copies : (key text : List ℕ) → encrypt aes key text ≡ some text
unfolding encrypt crypt bind
encrypt_copies key text = refl

decrypt_copies : (key text : List ℕ) → decrypt aes key text ≡ some text
unfolding decrypt crypt bind
decrypt_copies key text = refl

pub aes-IsCipher : IsCipher aes
aes-IsCipher = record {
  undoes = λ key text cipher e.
      let d = decrypt_copies key cipher in let c = encrypt_copies key text in cc;
}

key_set_lengths : (r : ℕ) (key : List ℕ) → get_elem? key_set r ≡ some key → length key ≤ 189
key_set_lengths r key e =
    All-get_elem? (λ k. length k ≤ 189) key_set r key
      (omega arith, (omega arith, (omega arith, (omega arith, (omega arith, tt))))) e

pub library-CanEncrypt : CanEncrypt library
library-CanEncrypt = record {
  undoes = aes-IsCipher;
  ciphertext = λ r key e. (
    key,
    encrypt_copies _ key,
    plain-IsByte key (key_set-plain r key e).0,
    key_set_lengths r key e,
  );
}

-- The keys have no separators.
solid : List ℕ → Bool
solid [] = true
solid (c ∷ cs) = not (is_separator c) && solid cs

solid-All : (cs : List ℕ) → solid cs ≡ true → All (λ c. is_separator c ≡ false) cs
unfolding solid
solid-All [] h = tt
solid-All (c ∷ cs) h = (ground arith, solid-All cs (ground arith))

key_set-solid : (r : ℕ) (key : List ℕ) → get_elem? key_set r ≡ some key → solid key ≡ true
unfolding solid is_separator
key_set-solid r key e =
    All-get_elem? (λ k. solid k ≡ true) key_set r key (refl, (refl, (refl, (refl, (refl, tt))))) e

digits_solid : solid (b'1' ∷ b'2' ∷ b'3' ∷ []) ≡ true
unfolding solid is_separator
digits_solid = refl

digit_share-IsToken :
    (d : ℕ) (key : List ℕ)
    → is_separator d ≡ false
    → d ≢ 0
    → solid key ≡ true
    → NoNul key
    → IsToken (d ∷ key)
digit_share-IsToken d key hd nd solid_key text = record {
  not_empty = omega arith;
  solid = (hd, solid-All key solid_key);
  text = (nd, text);
}

newline_separates : is_separator 10 ≡ true
unfolding is_separator
newline_separates = refl

until-line :
    (cs rest : List ℕ) → All (λ c. is_separator c ≡ false) cs → until 10 (cs ++ 10 ∷ rest) ≡ cs
unfolding until
until-line [] rest h = refl
until-line (c ∷ cs) rest (hc, h) =
    let later = until-line cs rest h in
    let n = newline_separates in
    let differs : c ≢ 10 = λ e. absurd (let q = ap is_separator e in cc) in ground arith

pub toy_shares-IsToken :
    (r : ℕ) (key : List ℕ) → get_elem? key_set r ≡ some key → All IsToken (toy_shares key)
toy_shares-IsToken r key e =
    let s = key_set-solid r key e in
    let t = plain-NoNul key (key_set-plain r key e).0 in
    let (one, (two, (three, _))) = solid-All (b'1' ∷ b'2' ∷ b'3' ∷ []) digits_solid in
    (
      digit_share-IsToken b'1' key one (ground arith) s t,
      (
        digit_share-IsToken b'2' key two (ground arith) s t,
        (digit_share-IsToken b'3' key three (ground arith) s t, tt),
      ),
    )

toy_share_tail :
    (key : List ℕ) (i : ℕ) (s : List ℕ) → get_elem? (toy_shares key) i ≡ some s → drop 1 s ≡ key
toy_share_tail key zero s e = let q : b'1' ∷ key ≡ s = cc in ap (drop 1) (sym q)
toy_share_tail key (suc zero) s e = let q : b'2' ∷ key ≡ s = cc in ap (drop 1) (sym q)
toy_share_tail key (suc (suc zero)) s e = let q : b'3' ∷ key ≡ s = cc in ap (drop 1) (sym q)
toy_share_tail key (suc (suc (suc i))) s e = absurd cc

toy_extract-write_share :
    (r : ℕ) (key : List ℕ) (sub : List (List ℕ))
    → get_elem? key_set r ≡ some key
    → All (IsShare (toy_shares key)) sub
    → length sub ≡ 3
    → c_string (toy_extract (write_share sub)) ≡ key
unfolding toy_extract write_share
toy_extract-write_share r key [] e h full = absurd (omega arith)
toy_extract-write_share r key (s ∷ ss) e ((i, low, is), h) full =
    let token = All-get_elem? IsToken (toy_shares key) i s (toy_shares-IsToken r key e) is in
    let line = until-line s (write_share ss) token.solid in
    let tail = toy_share_tail key i s is in
    let self = c_string_self key (plain-NoNul key (key_set-plain r key e).0) in rw (line, tail) self

pub library-IsSharing : IsSharing library toy_extract
library-IsSharing = record {
  shares = toy_shares;
  writes = λ r key e. refl;
  tokens = toy_shares-IsToken;
  many = λ r key e. omega arith;
  rebuilds = λ r key sub e sorted shares full. toy_extract-write_share r key sub e shares full;
}
