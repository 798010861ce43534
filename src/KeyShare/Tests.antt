-- ===== src/KeyShare/Tests.antt =====
-- The key sharing at concrete inputs.
use logger_verifier.KeyShare.Answered.{IsAnswer, served-Answers}
use logger_verifier.KeyShare.Client.{
  max_try, SharesFile, c_xor_greeter, c_get_threshhold, send_fingerprint,
}
use logger_verifier.KeyShare.Collect.{Answers, Collected, c_get_threshhold-Collected}
use logger_verifier.KeyShare.Fingerprint.{send_fingerprint-echoes}
use logger_verifier.KeyShare.Hidden.{until, masked, c_xor_greeter-until}
use logger_verifier.KeyShare.Served.{Session, Fate, delivered, request_lost, call, served}
use logger_verifier.KeyShare.Service.{greeter, get_threshhold}
use logger_verifier.KeyShare.Assumptions.{plain, plain-NoNul, plain-IsByte, key_set-plain}
use logger_verifier.KeyShare.Text.{
  is_separator, tokenize, tokens_from, keep_token, write_share, xor,
}
use logger_verifier.Base.{
  ℕ, ◌≤◌, ◌≡◌, refl, true, none, some, List, [], ◌∷◌, ◌++◌, arith, ◌==◌, if◌then◌else◌, codes,
}
use logger_verifier.KeyShare.Sample.{
  aes, toy_shares, library, encrypt_copies, aes-IsCipher, toy_shares-IsToken,
}

abbrev start : Session
start = record { greeter = greeter; calls = 0 }

abbrev file : SharesFile
file = record { content = none; writable = true }

abbrev no_loss : ℕ → Fate
no_loss i = delivered

draws_in_range : (i b : ℕ) → library.uniform i b ≤ b
draws_in_range i b = omega arith

-- The third call is lost.
abbrev one_loss : ℕ → Fate
one_loss i = if i == 2 then request_lost else delivered

abbrev apple : List ℕ
apple = codes "apple"

abbrev greeted : Session
greeted = record {
  greeter = record {
    shares_string = some (write_share (toy_shares apple));
    selected_key_num = some 0;
    selected_key = apple;
    draws = 1;
  };
  calls = 1;
}

abbrev wanted : Session
wanted = record greeted { calls = 2 }

abbrev apple_answers : Answers (served library one_loss) (IsAnswer (toy_shares apple))
apple_answers =
    served-Answers library one_loss 0 apple (toy_shares apple) draws_in_range
      (toy_shares-IsToken 0 apple refl) (omega arith)

three_wanted :
    call library one_loss (get_threshhold library (codes "alice")) greeted ≡ some (some 3, wanted)
unfolding call get_threshhold
three_wanted = refl

c_get_threshhold-Collected_example :
    (shares : List (List ℕ)) × (w' : Session) × (c_get_threshhold
        (served library one_loss)
        file
        (codes "alice")
        greeted
      ≡ some (write_share shares, w'))
    × Collected
        (served library one_loss)
        (IsAnswer (toy_shares apple))
        apple_answers
        3
        max_try
        wanted
        shares
        w'
c_get_threshhold-Collected_example =
    c_get_threshhold-Collected (served library one_loss) (IsAnswer (toy_shares apple)) apple_answers
      (codes "alice") 3 file greeted wanted three_wanted (omega arith) refl
      (record { written = refl; selected = refl; numbered = refl })

abbrev underscored : List ℕ
underscored = codes "al_ice"

underscored_is_plain : plain underscored ≡ true
unfolding plain
underscored_is_plain = refl

hidden_name :
    c_xor_greeter (served library no_loss) underscored true start
    ≡ some (
      (masked (until b'_' underscored), some (until b'_' underscored)),
      record start { calls = 1 },
    )
hidden_name =
    c_xor_greeter-until library no_loss underscored start
      (plain-IsByte underscored underscored_is_plain) (plain-NoNul underscored underscored_is_plain)
      (omega arith) refl

echoed_key :
    send_fingerprint (served library no_loss) aes apple greeted
    ≡ some (apple, record greeted { calls = 2 })
echoed_key =
    send_fingerprint-echoes library no_loss apple apple greeted aes-IsCipher
      (encrypt_copies _ apple) (plain-IsByte apple (key_set-plain 0 apple refl).0) (omega arith)
      (plain-NoNul apple (key_set-plain 0 apple refl).0) (omega arith) refl refl

-- An underscore ends the name.
underscore_ends : until b'_' underscored ≡ codes "al"
unfolding until
underscore_ends = refl

-- The tokens are split where they should be.
tokens_split :
    tokenize (codes " ab|,cd" ++ 10 ∷ codes "e") ≡ codes "ab" ∷ codes "cd" ∷ codes "e" ∷ []
unfolding tokenize tokens_from keep_token is_separator
tokens_split = refl

masked_underscore : xor 10 (codes "a_b") ≡ some (62 ∷ 0 ∷ 61 ∷ [])
unfolding xor
masked_underscore = refl
