-- ===== src/Base64/Bitwise.antt =====
-- The cells of test_dir/en_de_file.c hold what the shifts of the other codecs compute.
use logger_verifier.Base64.Alphabet.{base64_table, pad, all_below, all_below_sound}
use logger_verifier.Base64.Encode.{h_base64_encode}
use logger_verifier.Base64.FileCodec.{
  fill, slots, cell, sixes, padding_from, equals_signs, padding_of, encoded_text, file_encode,
}
use logger_verifier.Base.{
  ℕ, zero, suc, ◌+◌, ◌*◌, ◌/◌, ◌%◌, ◌<◌, ◌≡◌, refl, ap, ◌∙◌, subst, true, some, List, [], ◌∷◌, ◌++◌,
  map, arith, ◌==◌, length, replicate, All, IsByte, bytes_eq, bytes_eq→eq,
}

abbrev pub bits8 : ℕ → List ℕ
bits8 q =
    q / 128 % 2
    ∷ q / 64 % 2
    ∷ q / 32 % 2
    ∷ q / 16 % 2
    ∷ q / 8 % 2
    ∷ q / 4 % 2
    ∷ q / 2 % 2
    ∷ q % 2
    ∷ []

pub fill-bits8 : (q : ℕ) → q < 256 → fill 8 q [] ≡ bits8 q
unfolding all_below fill bytes_eq
fill-bits8 q h =
    bytes_eq→eq (fill 8 q []) (bits8 q)
      (all_below_sound 256 (λ x. bytes_eq (fill 8 x []) (bits8 x)) refl q h)

-- The values of the cells of a byte, by the part of the byte that a group takes.
pub same_below :
    (f g : ℕ → ℕ) → all_below 256 (λ x. f x == g x) ≡ true → (x : ℕ) → x < 256 → f x ≡ g x
same_below f g e x h = let q = all_below_sound 256 (λ x. f x == g x) e x h in ground arith

upper_six :
    (a : ℕ)
    → a < 256
    → cell 0 (a / 4 % 2)
        + cell 1 (a / 8 % 2)
        + cell 2 (a / 16 % 2)
        + cell 3 (a / 32 % 2)
        + cell 4 (a / 64 % 2)
        + cell 5 (a / 128 % 2)
      ≡ a / 4
unfolding all_below cell
upper_six = same_below _ _ refl

lower_two : (a : ℕ) → a < 256 → cell 4 (a % 2) + cell 5 (a / 2 % 2) ≡ a % 4 * 16
unfolding all_below cell
lower_two = same_below _ _ refl

upper_four :
    (b : ℕ)
    → b < 256
    → cell 0 (b / 16 % 2) + cell 1 (b / 32 % 2) + cell 2 (b / 64 % 2) + cell 3 (b / 128 % 2)
      ≡ b / 16
unfolding all_below cell
upper_four = same_below _ _ refl

lower_four :
    (b : ℕ)
    → b < 256
    → cell 2 (b % 2) + cell 3 (b / 2 % 2) + cell 4 (b / 4 % 2) + cell 5 (b / 8 % 2) ≡ b % 16 * 4
unfolding all_below cell
lower_four = same_below _ _ refl

upper_two : (c : ℕ) → c < 256 → cell 0 (c / 64 % 2) + cell 1 (c / 128 % 2) ≡ c / 64
unfolding all_below cell
upper_two = same_below _ _ refl

lower_six :
    (c : ℕ)
    → c < 256
    → cell 0 (c % 2)
        + cell 1 (c / 2 % 2)
        + cell 2 (c / 4 % 2)
        + cell 3 (c / 8 % 2)
        + cell 4 (c / 16 % 2)
        + cell 5 (c / 32 % 2)
      ≡ c % 64
unfolding all_below cell
lower_six = same_below _ _ refl

middle_six :
    (a b : ℕ)
    → a < 256
    → b < 256
    → cell 0 (b / 16 % 2)
        + cell 1 (b / 32 % 2)
        + cell 2 (b / 64 % 2)
        + cell 3 (b / 128 % 2)
        + cell 4 (a % 2)
        + cell 5 (a / 2 % 2)
      ≡ a % 4 * 16 + b / 16
middle_six a b ha hb = omega (arith, lower_two a ha, upper_four b hb)

-- Three bytes are four groups.
sixes-three :
    (a b c : ℕ) (rest : List ℕ)
    → a < 256
    → b < 256
    → c < 256
    → sixes (bits8 a ++ (bits8 b ++ (bits8 c ++ rest)))
      ≡ a / 4 ∷ (a % 4 * 16 + b / 16) ∷ (b % 16 * 4 + c / 64) ∷ c % 64 ∷ sixes rest
unfolding sixes
sixes-three a b c rest ha hb hc =
    let e1 = upper_six a ha in
    let e2 = middle_six a b ha hb in
    let l2 = lower_four b hb in
    let u3 = upper_two c hc in
    let e4 = lower_six c hc in
    let e3 : cell 0 (c / 64 % 2)
          + cell 1 (c / 128 % 2)
          + cell 2 (b % 2)
          + cell 3 (b / 2 % 2)
          + cell 4 (b / 4 % 2)
          + cell 5 (b / 8 % 2)
        ≡ b % 16 * 4 + c / 64 =
      omega (arith, l2, u3) in
    cc

padding_from-three : (f n p : ℕ) → padding_from f (n + 24) p ≡ padding_from f n p
unfolding padding_from
padding_from-three zero n p = refl
padding_from-three (suc f) n p =
    let e : n + 24 + 1 ≡ n + 1 + 24 = omega arith in
    let moved : padding_from f (n + 24 + 1) (p + 1) ≡ padding_from f (n + 1 + 24) (p + 1) =
      ap (λ k. padding_from f k (p + 1)) e in
    let rest = padding_from-three f (n + 1) (p + 1) in ground arith

pub padding-three : (a b c : ℕ) (rest : List ℕ) → padding_of (a ∷ b ∷ c ∷ rest) ≡ padding_of rest
unfolding padding_of
padding-three a b c rest =
    let e : suc (suc (suc (length rest))) * 8 ≡ length rest * 8 + 24 = omega arith in
    ap (λ k. padding_from 6 k 0) e ∙ padding_from-three 6 (length rest * 8) 0

zeros_two :
    (a : ℕ)
    → a < 256
    → cell 0 0 + cell 1 0 + cell 2 0 + cell 3 0 + cell 4 (a % 2) + cell 5 (a / 2 % 2) ≡ a % 4 * 16
unfolding all_below cell
zeros_two = same_below _ _ refl

zeros_four :
    (b : ℕ)
    → b < 256
    → cell 0 0
        + cell 1 0
        + cell 2 (b % 2)
        + cell 3 (b / 2 % 2)
        + cell 4 (b / 4 % 2)
        + cell 5 (b / 8 % 2)
      ≡ b % 16 * 4
unfolding all_below cell
zeros_four = same_below _ _ refl

encoded_text-one :
    (a : ℕ)
    → a < 256
    → encoded_text (a ∷ []) 4 ≡ base64_table (a / 4) ∷ base64_table (a % 4 * 16) ∷ pad ∷ pad ∷ []
unfolding encoded_text slots sixes equals_signs
encoded_text-one a ha = rw (fill-bits8 a ha, upper_six a ha, zeros_two a ha) refl

encoded_text-two :
    (a b : ℕ)
    → a < 256
    → b < 256
    → encoded_text (a ∷ b ∷ []) 2
      ≡ base64_table (a / 4)
        ∷ base64_table (a % 4 * 16 + b / 16)
        ∷ base64_table (b % 16 * 4)
        ∷ pad
        ∷ []
unfolding encoded_text slots sixes equals_signs
encoded_text-two a b ha hb =
    rw (fill-bits8 a ha, fill-bits8 b hb, upper_six a ha, middle_six a b ha hb, zeros_four b hb)
      refl

encoded_text-three :
    (a b c : ℕ) (rest : List ℕ) (padding : ℕ)
    → a < 256
    → b < 256
    → c < 256
    → encoded_text (a ∷ b ∷ c ∷ rest) padding
      ≡ base64_table (a / 4)
        ∷ base64_table (a % 4 * 16 + b / 16)
        ∷ base64_table (b % 16 * 4 + c / 64)
        ∷ base64_table (c % 64)
        ∷ encoded_text rest padding
unfolding encoded_text slots
encoded_text-three a b c rest padding ha hb hc =
    rw (fill-bits8 a ha, fill-bits8 b hb, fill-bits8 c hc)
      (ap (λ l. map base64_table l ++ equals_signs padding)
        (sixes-three a b c (slots 8 rest ++ replicate padding 0) ha hb hc))

encoded_text-none : encoded_text [] 0 ≡ []
unfolding encoded_text slots sixes equals_signs
encoded_text-none = refl

encoded_text-eq-h_base64_encode :
    (s : List ℕ) → All IsByte s → encoded_text s (padding_of s) ≡ h_base64_encode s
unfolding h_base64_encode padding_of padding_from
encoded_text-eq-h_base64_encode [] h = encoded_text-none
encoded_text-eq-h_base64_encode (a ∷ []) (ha, h) = encoded_text-one a ha
encoded_text-eq-h_base64_encode (a ∷ b ∷ []) (ha, (hb, h)) = encoded_text-two a b ha hb
encoded_text-eq-h_base64_encode (a ∷ b ∷ c ∷ rest) (ha, (hb, (hc, h))) =
    let more = encoded_text-eq-h_base64_encode rest h in
    ap (encoded_text (a ∷ b ∷ c ∷ rest)) (padding-three a b c rest)
    ∙ encoded_text-three a b c rest (padding_of rest) ha hb hc
    ∙ ap
        (λ t.
          base64_table (a / 4)
          ∷ base64_table (a % 4 * 16 + b / 16)
          ∷ base64_table (b % 16 * 4 + c / 64)
          ∷ base64_table (c % 64)
          ∷ t)
        more

-- The size that `encode` computes is that of its text.
code_size :
    (s : List ℕ) → length (h_base64_encode s) ≡ (length s * 8 + padding_of s) / 6 + padding_of s / 2
unfolding h_base64_encode padding_of padding_from
code_size [] = refl
code_size (a ∷ []) = refl
code_size (a ∷ b ∷ []) = refl
code_size (a ∷ b ∷ c ∷ rest) =
    let more = code_size rest in let same = padding-three a b c rest in omega (arith, more, same)

-- On bytes, where the allocator gives at least one byte more than is asked for, `encode` gives what
-- `h_base64_encode` gives.
pub file_encode-eq-h_base64_encode :
    (usable : ℕ → ℕ) (s : List ℕ)
    → length (h_base64_encode s) < usable (length (h_base64_encode s))
    → All IsByte s
    → file_encode usable s ≡ some (h_base64_encode s)
unfolding file_encode
file_encode-eq-h_base64_encode usable s room bytes =
    let same_text = encoded_text-eq-h_base64_encode s bytes in
    let size : length (h_base64_encode s) ≡ (length s * 8 + padding_of s) / 6 + padding_of s / 2 =
      code_size s in
    let fits = subst (λ n. n < usable n) size room in ground arith
