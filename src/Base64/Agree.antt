-- ===== src/Base64/Agree.antt =====
-- The three encoders write the same text.
use logger_verifier.Base.Bits.{shr, shl, low_bits, and_0xfc, and_0xf0, and_0xc0}
use logger_verifier.Base64.Alphabet.{base64_table, pad}
use logger_verifier.Base64.Encode.{
  h_base64_encode, b_emit, b_encode_loop, pad_out, b_base64_encode, char_array_4, t_base64_encode,
}
use logger_verifier.Base.{
  ℕ, zero, suc, ◌+◌, ◌*◌, ◌/◌, ◌%◌, ◌^◌, ◌<◌, ◌≡◌, refl, ap, List, [], ◌∷◌, ◌++◌, arith, All,
  IsByte,
}

-- One round of the outer loop, from 0, 2 and 4 pending bits.
b_loop_0 :
    (a val : ℕ) (cs : List ℕ)
    → a < 256
    → b_encode_loop (a ∷ cs) val 0
      ≡ base64_table (shr a 2) ∷ b_encode_loop cs (shl val 8 % 2 ^ 32 + a) 2
unfolding b_encode_loop b_emit
b_loop_0 a val cs h =
    let e : (val * 256 % 2 ^ 32 + a) / 4 % 64 ≡ a / 4 = omega arith in
    ap (λ k. base64_table k ∷ b_encode_loop cs (val * 256 % 2 ^ 32 + a) 2) e

b_loop_2 :
    (b val : ℕ) (cs : List ℕ)
    → b < 256
    → b_encode_loop (b ∷ cs) val 2
      ≡ base64_table (shl (val % 4) 4 + shr b 4) ∷ b_encode_loop cs (shl val 8 % 2 ^ 32 + b) 4
unfolding b_encode_loop b_emit
b_loop_2 b val cs h =
    let e : (val * 256 % 2 ^ 32 + b) / 16 % 64 ≡ val % 4 * 16 + b / 16 = omega arith in
    ap (λ k. base64_table k ∷ b_encode_loop cs (val * 256 % 2 ^ 32 + b) 4) e

b_loop_4 :
    (c val : ℕ) (cs : List ℕ)
    → c < 256
    → b_encode_loop (c ∷ cs) val 4
      ≡ base64_table (shl (val % 16) 2 + shr c 6)
        ∷ base64_table (low_bits c 6)
        ∷ b_encode_loop cs (shl val 8 % 2 ^ 32 + c) 0
unfolding b_encode_loop b_emit
b_loop_4 c val cs h =
    let e : (val * 256 % 2 ^ 32 + c) / 64 % 64 ≡ val % 16 * 4 + c / 64 = omega arith in
    let e' : (val * 256 % 2 ^ 32 + c) / 1 % 64 ≡ c % 64 = omega arith in rw (e, e')

b_end_2 : (val : ℕ) → b_encode_loop [] val 2 ≡ base64_table (shl (val % 4) 4) ∷ []
unfolding b_encode_loop
b_end_2 val =
    let e : val * 256 % 2 ^ 32 / 16 % 64 ≡ val % 4 * 16 = omega arith in
    ap (λ k. base64_table k ∷ []) e

b_end_4 : (val : ℕ) → b_encode_loop [] val 4 ≡ base64_table (shl (val % 16) 2) ∷ []
unfolding b_encode_loop
b_end_4 val =
    let e : val * 256 % 2 ^ 32 / 64 % 64 ≡ val % 16 * 4 = omega arith in
    ap (λ k. base64_table k ∷ []) e

pad_out_four :
    (f w x y z : ℕ) (out : List ℕ) → pad_out f (w ∷ x ∷ y ∷ z ∷ out) ≡ w ∷ x ∷ y ∷ z ∷ pad_out f out
unfolding pad_out
pad_out_four zero w x y z out = refl
pad_out_four (suc f) w x y z out = ground (arith, pad_out_four f w x y z (out ++ pad ∷ []))

b_encode_loop-pad_out :
    (bs : List ℕ) (val : ℕ)
    → All IsByte bs
    → pad_out 3 (b_encode_loop bs val 0) ≡ h_base64_encode bs
unfolding h_base64_encode
b_encode_loop-pad_out [] val h = unfold b_encode_loop pad_out in refl
b_encode_loop-pad_out (a ∷ []) val h =
    let e : (val * 256 % 2 ^ 32 + a) % 4 ≡ a % 4 = omega arith in
    rw (b_loop_0 a val [] h.0, b_end_2, e) (unfold pad_out in refl)
b_encode_loop-pad_out (a ∷ b ∷ []) val h =
    let e : (val * 256 % 2 ^ 32 + a) % 4 ≡ a % 4 = omega arith in
    let e' : ((val * 256 % 2 ^ 32 + a) * 256 % 2 ^ 32 + b) % 16 ≡ b % 16 = omega arith in
    rw (b_loop_0 a val (b ∷ []) h.0, b_loop_2 b (val * 256 % 2 ^ 32 + a) [] h.1.0, b_end_4, e, e')
      (unfold pad_out in refl)
b_encode_loop-pad_out (a ∷ b ∷ c ∷ rest) val h =
    let v : ℕ = val * 256 % 2 ^ 32 + a in
    let v' : ℕ = v * 256 % 2 ^ 32 + b in
    let e : v % 4 ≡ a % 4 = omega arith in
    let e' : v' % 16 ≡ b % 16 = omega arith in
    rw (
      b_loop_0 a val (b ∷ c ∷ rest) h.0,
      b_loop_2 b v (c ∷ rest) h.1.0,
      b_loop_4 c v' rest h.1.1.0,
      e,
      e',
      pad_out_four,
      b_encode_loop-pad_out rest (v' * 256 % 2 ^ 32 + c) h.1.1.1,
    )

-- `b_base64_encode` and `h_base64_encode` write the same text for every byte string. The `int` that
-- the first one shifts into is taken to wrap around.
pub b_base64_encode-eq-h_base64_encode :
    (bs : List ℕ) → All IsByte bs → b_base64_encode bs ≡ h_base64_encode bs
unfolding b_base64_encode
b_base64_encode-eq-h_base64_encode bs h = b_encode_loop-pad_out bs 0 h

char_array_4_lem :
    (a b c : ℕ)
    → a < 256
    → b < 256
    → c < 256
    → char_array_4 a b c
      ≡ shr a 2
        ∷ (shl (low_bits a 2) 4 + shr b 4)
        ∷ (shl (low_bits b 4) 2 + shr c 6)
        ∷ low_bits c 6
        ∷ []
unfolding char_array_4
char_array_4_lem a b c ha hb hc = ground (arith, and_0xfc a ha, and_0xf0 b hb, and_0xc0 c hc)

-- `base64_encode` of the test program, started with nothing pending, writes that text too.
pub t_base64_encode-eq-h_base64_encode :
    (bs : List ℕ) → All IsByte bs → t_base64_encode [] bs ≡ h_base64_encode bs
unfolding t_base64_encode h_base64_encode
t_base64_encode-eq-h_base64_encode [] h = refl
t_base64_encode-eq-h_base64_encode (a ∷ []) h =
    let e : a % 4 * 16 + 0 ≡ a % 4 * 16 = omega arith in
    rw (char_array_4_lem a 0 0 h.0 (omega arith) (omega arith), e)
t_base64_encode-eq-h_base64_encode (a ∷ b ∷ []) h =
    let e : b % 16 * 4 + 0 ≡ b % 16 * 4 = omega arith in
    rw (char_array_4_lem a b 0 h.0 h.1.0 (omega arith), e)
t_base64_encode-eq-h_base64_encode (a ∷ b ∷ c ∷ rest) h =
    rw (char_array_4_lem a b c h.0 h.1.0 h.1.1.0, t_base64_encode-eq-h_base64_encode rest h.1.1.1)
