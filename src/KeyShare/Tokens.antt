-- ===== src/KeyShare/Tokens.antt =====
-- How `GetShare` of helloworld/greeter_server.cc takes the shares apart, and what a client can get.
use logger_verifier.KeyShare.Text.{is_separator, keep_token, tokens_from, tokenize, write_share}
use logger_verifier.Base.{
  ℕ, ◌<◌, ◌≡◌, refl, true, false, List, [], ◌∷◌, ◌++◌, append-nil, append_assoc, arith, length, All,
  NoNul,
}

-- A share as c-sss writes it: a text without separators and NULs, which is not empty.
pub record IsToken (token : List ℕ) : Type 0 where
  pub not_empty : 0 < length token
  pub solid : All (λ c. is_separator c ≡ false) token
  pub text : NoNul token

keep_token-not_empty : (t : List ℕ) → 0 < length t → keep_token t ≡ t ∷ []
unfolding keep_token
keep_token-not_empty [] h = absurd (omega arith)
keep_token-not_empty (c ∷ cs) h = refl

tokens_from-nil : tokens_from [] [] ≡ []
unfolding tokens_from keep_token
tokens_from-nil = refl

newline_separates : is_separator 10 ≡ true
unfolding is_separator
newline_separates = refl

tokens_from-line :
    (token line rest : List ℕ)
    → All (λ c. is_separator c ≡ false) line
    → tokens_from token (line ++ 10 ∷ rest) ≡ keep_token (token ++ line) ++ tokens_from [] rest
unfolding tokens_from
tokens_from-line token [] rest h =
    let n = newline_separates in let e = append-nil token in ground arith
tokens_from-line token (c ∷ line) rest (hc, h) =
    let assoc = append_assoc token (c ∷ []) line in
    let more = tokens_from-line (token ++ c ∷ []) line rest h in ground arith

pub tokenize-write_share :
    (shares : List (List ℕ)) → All IsToken shares → tokenize (write_share shares) ≡ shares
unfolding tokenize write_share
tokenize-write_share [] h = tokens_from-nil
tokenize-write_share (s ∷ ss) (hs, h) =
    let here = tokens_from-line [] s (write_share ss) hs.solid in
    let one = keep_token-not_empty s hs.not_empty in
    let rest = tokenize-write_share ss h in ground arith
