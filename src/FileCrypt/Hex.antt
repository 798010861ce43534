-- ===== src/FileCrypt/Hex.antt =====
-- The hexadecimal text that the encryption of test_dir/en_de_file.c writes, and what the decryption
-- reads of it.
use mathlib.Core.Option.{bind}
use logger_verifier.FileCrypt.{
  hex_digit, hex_text, digit_value, is_space, at_digit, in_number, in_space, scan_from, scan_hex,
}
use logger_verifier.Base.{
  ℕ, ◌+◌, ◌*◌, ◌/◌, ◌%◌, ◌^◌, ◌<◌, ◌≡◌, refl, ap, ◌∙◌, ◌≢◌, inl, inr, true, false, none, some, List,
  [], ◌∷◌, arith, ltb, Bool-cases, All, IsByte, NoNul,
}

digit_value-hex_digit : (d : ℕ) → d < 16 → digit_value (hex_digit d) ≡ some d
unfolding digit_value hex_digit
digit_value-hex_digit d h = elim (Bool-cases (ltb d 10)) [
  | inl low ↦ ground arith
  | inr high ↦ ground arith
]

space : (digit_value 32 ≡ none) × (is_space 32 ≡ true)
unfolding digit_value is_space
space = (refl, refl)

zero_no_space : is_space 48 ≡ false
unfolding is_space
zero_no_space = refl

first_digit :
    (c d : ℕ) (cs : List ℕ)
    → digit_value c ≡ some d
    → scan_from at_digit (c ∷ cs) ≡ scan_from (in_number d) cs
unfolding scan_from
first_digit c d cs e = ground arith

later_digit :
    (n c d : ℕ) (cs : List ℕ)
    → digit_value c ≡ some d
    → n * 16 + d < 2 ^ 32
    → scan_from (in_number n) (c ∷ cs) ≡ scan_from (in_number (n * 16 + d)) cs
unfolding scan_from
later_digit n c d cs e h = ground arith

number_ends :
    (n c : ℕ) (cs : List ℕ)
    → digit_value c ≡ none
    → is_space c ≡ true
    → scan_from (in_number n) (c ∷ cs) ≡ scan_from (in_space n) cs
unfolding scan_from
number_ends n c cs e h = ground arith

next_number :
    (n : ℕ) (cs bs : List ℕ)
    → is_space 48 ≡ false
    → scan_from at_digit cs ≡ some bs
    → scan_from (in_space n) (48 ∷ 120 ∷ cs) ≡ some (n % 256 ∷ bs)
unfolding scan_from bind
next_number n cs bs h e = ground arith

-- A byte's text, from its first digit on.
scan_digits :
    (b : ℕ) (cs : List ℕ)
    → b < 256
    → scan_from at_digit (hex_digit (b / 16) ∷ hex_digit (b % 16) ∷ 32 ∷ cs)
      ≡ scan_from (in_space b) cs
scan_digits b cs h =
    let hi = digit_value-hex_digit (b / 16) (omega arith) in
    let lo = digit_value-hex_digit (b % 16) (omega arith) in
    let whole : b / 16 * 16 + b % 16 ≡ b = omega arith in
    let (no_digit, blank) = space in
    first_digit (hex_digit (b / 16)) (b / 16) _ hi
    ∙ later_digit (b / 16) (hex_digit (b % 16)) (b % 16) _ lo (omega arith)
    ∙ ap (λ n. scan_from (in_number n) (32 ∷ cs)) whole
    ∙ number_ends b 32 cs no_digit blank

-- The text of all bytes, from the end of the first one's on: the trailing space of a text leads to
-- its end, or to the next byte.
scan_rest :
    (b : ℕ) (bs : List ℕ)
    → b < 256
    → All IsByte bs
    → scan_from (in_space b) (hex_text bs) ≡ some (b ∷ bs)
unfolding hex_text
scan_rest b [] h hs = unfold scan_from in ap (λ n. some (n ∷ [])) (omega arith)
scan_rest b (c ∷ bs) h (hc, hs) =
    let small : b % 256 ≡ b = omega arith in
    next_number b _ (c ∷ bs) zero_no_space (scan_digits c (hex_text bs) hc ∙ scan_rest c bs hc hs)
    ∙ ap (λ n. some (n ∷ c ∷ bs)) small

-- What was written is read back, when it is not empty.
pub scan_hex-hex_text :
    (b : ℕ) (bs : List ℕ) → b < 256 → All IsByte bs → scan_hex (hex_text (b ∷ bs)) ≡ some (b ∷ bs)
unfolding scan_hex hex_text
scan_hex-hex_text b bs h hs =
    unfold scan_from in scan_digits b (hex_text bs) h ∙ scan_rest b bs h hs

hex_digit_range : (d : ℕ) → d < 16 → (hex_digit d ≢ 0) × (hex_digit d < 256)
unfolding hex_digit
hex_digit_range d h = ground arith

-- The text is one of bytes without a NUL.
pub hex_text-plain : (bs : List ℕ) → All IsByte bs → NoNul (hex_text bs) × All IsByte (hex_text bs)
unfolding hex_text
hex_text-plain [] h = (tt, tt)
hex_text-plain (b ∷ bs) (hb, h) =
    let (a, a') = hex_digit_range (b / 16) (omega arith) in
    let (c, c') = hex_digit_range (b % 16) (omega arith) in
    let (text, bytes) = hex_text-plain bs h in
    (
      ((λ e. omega arith), ((λ e. omega arith), (a, (c, ((λ e. omega arith), text))))),
      (omega arith, (omega arith, (a', (c', (omega arith, bytes))))),
    )
