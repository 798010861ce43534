-- ===== src/Signing/Tests.antt =====
-- Signatures at concrete inputs: a signature is its message behind a 1, and the Base64 text of some
-- bytes has two bytes in front of them and a newline behind.
use mathlib.Core.Option.{bind}
use logger_verifier.Base.Decimal.{pos}
use logger_verifier.Signing.{Openssl, calc_decode_length, ends_in, sign_message, verify_signature}
use logger_verifier.Signing.Authentic.{IsPair, IsFilter, verify_signature-sign_message}
use logger_verifier.Signing.Keys.{KeyMaker, Keys}
use logger_verifier.Base.{
  ℕ, ◌+◌, ◌-◌, ◌≡◌, refl, none, some, List, [], ◌∷◌, ◌++◌, arith, if◌then◌else◌, length, take, drop,
  codes, bytes_eq,
}

abbrev toy_openssl : Openssl
toy_openssl = record {
  PrivateKey = Unit {0};
  PublicKey = Unit {0};
  SignContext = List ℕ;
  VerifyContext = List ℕ;
  read_private = λ text. some tt;
  read_public = λ text. some tt;
  sign_init = λ key. some [];
  sign_update = λ msg context. some (context ++ msg);
  sign_final = λ context. some (1 ∷ context);
  verify_init = λ key. some [];
  verify_update = λ msg context. some (context ++ msg);
  verify_final = λ signature context. if bytes_eq context (drop 1 signature) then pos 1 else pos 0;
  bio_encode = λ bytes. 65 ∷ 65 ∷ (bytes ++ 10 ∷ []);
  bio_decode = λ text. some (take (length text - 3) (drop 2 text));
}

toy-IsPair : IsPair toy_openssl tt tt
unfolding bind
toy-IsPair = record {
  signature = λ msg. 1 ∷ msg;
  context = [];
  begins = refl;
  signs_nothing = refl;
  verifier = λ msg. msg;
  takes = λ msg. refl;
  passes = λ msg signed. refl;
}

toy-IsFilter : IsFilter toy_openssl (toy-IsPair.signature [])
unfolding toy-IsPair
toy-IsFilter = record {
  text = (
    (λ e. ground arith),
    ((λ e. ground arith), ((λ e. ground arith), ((λ e. ground arith), tt))),
  );
  some_text = omega arith;
  longer = omega arith;
  newline = refl;
  back = refl;
}

verify_signature-sign_message_example :
    (signed_hash : List ℕ) × (sign_message toy_openssl (0 ∷ []) (codes "private") (codes "cafe")
      ≡ some signed_hash)
    × (verify_signature toy_openssl (codes "public") (codes "cafe") signed_hash
        ≡ some (bytes_eq (codes "cafe") []))
verify_signature-sign_message_example =
    verify_signature-sign_message toy_openssl tt tt [] (codes "private") (codes "public")
      (codes "cafe") (codes "cafe") toy-IsPair toy-IsFilter refl refl

one_pad : calc_decode_length (codes "QUI=") ≡ some 2
unfolding calc_decode_length ends_in
one_pad = refl

no_text : calc_decode_length [] ≡ none
unfolding calc_decode_length ends_in
no_text = refl

-- The world counts the keys that were made.
abbrev toy_maker : KeyMaker toy_openssl
toy_maker = record {
  World = ℕ;
  generate = λ n. (some tt, n + 1);
  write_private = λ key. codes "PRIVATE";
  write_public = λ key. codes "PUBLIC";
}

abbrev no_keys : Keys
no_keys = record { private_key = []; public_key = []; pubkey_file = codes "old" }
