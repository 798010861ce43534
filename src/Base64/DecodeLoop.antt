-- ===== src/Base64/DecodeLoop.antt =====
-- The loop of `h_base64_decode` on what `h_base64_encode` writes, a group of characters at a time.
use logger_verifier.Base.Bits.{or_2, or_4, or_6}
use logger_verifier.Base64.Alphabet.{
  base64_table, pad, reverse_table-base64_table, base64_table_range,
}
use logger_verifier.Base64.Encode.{h_base64_encode}
use logger_verifier.Base64.Decode.{Decoding, h_step, advance, mop_up, h_decode_loop}
use logger_verifier.Base.{
  ℕ, zero, suc, ◌+◌, ◌*◌, ◌/◌, ◌%◌, ◌≤◌, ◌<◌, ◌≡◌, refl, sym, ap, ◌∙◌, some, List, [], ◌∷◌, ◌++◌,
  append-nil, append_assoc, arith, All, IsByte,
}

-- A character of the alphabet is one step of the `switch`.
h_decode_character :
    (k : ℕ) (cs : List ℕ) (d : Decoding)
    → k < 64
    → h_decode_loop (base64_table k ∷ cs) d ≡ h_decode_loop cs (h_step k d)
unfolding h_decode_loop advance
h_decode_character k cs d h = ground (arith, base64_table_range k h, reverse_table-base64_table k h)

abbrev decoding : ℕ → List ℕ → ℕ → Decoding
decoding i done cur = record { i = i; done = done; cur = cur }

-- The four cases of the `switch` on what an encoder writes.
h_step_0 :
    (a i : ℕ) (done : List ℕ) (cur : ℕ)
    → a < 64
    → i % 4 ≡ 0
    → h_step a (decoding i done cur) ≡ decoding (i + 1) done (a * 4)
unfolding h_step
h_step_0 a i done cur ha hi = let e : a * 4 % 256 ≡ a * 4 = omega arith in rw (hi, e)

h_step_1 :
    (hi4 lo4 q i : ℕ) (done : List ℕ)
    → q < 64
    → hi4 < 4
    → lo4 < 16
    → i % 4 ≡ 1
    → h_step (hi4 * 16 + lo4) (decoding i done (q * 4))
      ≡ decoding (i + 1) (done ++ (q * 4 + hi4) ∷ []) (lo4 * 16)
unfolding h_step
h_step_1 hi4 lo4 q i done hq h l hi =
    let e : (hi4 * 16 + lo4) / 16 ≡ hi4 = omega arith in
    let e' : (hi4 * 16 + lo4) % 16 ≡ lo4 = omega arith in rw (hi, e, e', or_2 q hi4 hq h)

h_step_2 :
    (hi4 lo2 q i : ℕ) (done : List ℕ)
    → q < 16
    → hi4 < 16
    → lo2 < 4
    → i % 4 ≡ 2
    → h_step (hi4 * 4 + lo2) (decoding i done (q * 16))
      ≡ decoding (i + 1) (done ++ (q * 16 + hi4) ∷ []) (lo2 * 64)
unfolding h_step
h_step_2 hi4 lo2 q i done hq h l hi =
    let e : (hi4 * 4 + lo2) / 4 ≡ hi4 = omega arith in
    let e' : (hi4 * 4 + lo2) % 4 ≡ lo2 = omega arith in rw (hi, e, e', or_4 q hi4 hq h)

h_step_3 :
    (lo6 q i : ℕ) (done : List ℕ)
    → q < 4
    → lo6 < 64
    → i % 4 ≡ 3
    → h_step lo6 (decoding i done (q * 64)) ≡ decoding (i + 1) (done ++ (q * 64 + lo6) ∷ []) 0
unfolding h_step
h_step_3 lo6 q i done hq h hi = rw (hi, or_6 q lo6 hq h)

-- The first two characters of a group give its first byte.
h_decode_first :
    (a lo4 i : ℕ) (done : List ℕ) (cur : ℕ) (cs : List ℕ)
    → a < 256
    → lo4 < 16
    → i % 4 ≡ 0
    → h_decode_loop
        (base64_table (a / 4) ∷ base64_table (a % 4 * 16 + lo4) ∷ cs)
        (decoding i done cur)
      ≡ h_decode_loop cs (decoding (i + 2) (done ++ a ∷ []) (lo4 * 16))
h_decode_first a lo4 i done cur cs ha hl hi =
    let e : a / 4 * 4 + a % 4 ≡ a = omega arith in
    let e' : i + 1 + 1 ≡ i + 2 = omega arith in
    rw (
      h_decode_character (a / 4) (base64_table (a % 4 * 16 + lo4) ∷ cs) (decoding i done cur)
          (omega arith),
      h_step_0 (a / 4) i done cur (omega arith) hi,
      h_decode_character (a % 4 * 16 + lo4) cs (decoding (i + 1) done (a / 4 * 4)) (omega arith),
      h_step_1 (a % 4) lo4 (a / 4) (i + 1) done (omega arith) (omega arith) hl (omega arith),
      e,
      e',
    )

-- The third gives the second byte.
h_decode_second :
    (b lo2 i : ℕ) (done cs : List ℕ)
    → b < 256
    → lo2 < 4
    → i % 4 ≡ 2
    → h_decode_loop (base64_table (b % 16 * 4 + lo2) ∷ cs) (decoding i done (b / 16 * 16))
      ≡ h_decode_loop cs (decoding (i + 1) (done ++ b ∷ []) (lo2 * 64))
h_decode_second b lo2 i done cs hb hl hi =
    let e : b / 16 * 16 + b % 16 ≡ b = omega arith in
    rw (
      h_decode_character (b % 16 * 4 + lo2) cs (decoding i done (b / 16 * 16)) (omega arith),
      h_step_2 (b % 16) lo2 (b / 16) i done (omega arith) (omega arith) hl hi,
      e,
    )

h_decode_third :
    (c i : ℕ) (done cs : List ℕ)
    → c < 256
    → i % 4 ≡ 3
    → h_decode_loop (base64_table (c % 64) ∷ cs) (decoding i done (c / 64 * 64))
      ≡ h_decode_loop cs (decoding (i + 1) (done ++ c ∷ []) 0)
h_decode_third c i done cs hc hi =
    let e : c / 64 * 64 + c % 64 ≡ c = omega arith in
    rw (
      h_decode_character (c % 64) cs (decoding i done (c / 64 * 64)) (omega arith),
      h_step_3 (c % 64) (c / 64) i done (omega arith) (omega arith) hi,
      e,
    )

h_decode_pad :
    (i : ℕ) (done : List ℕ) (cur : ℕ) (cs : List ℕ)
    → 2 ≤ i % 4
    → h_decode_loop (pad ∷ cs) (decoding i done cur) ≡ some done
unfolding h_decode_loop
h_decode_pad i done cur cs h = mop_up_late (i % 4) done h
  where
    mop_up_late : (n : ℕ) (done : List ℕ) → 2 ≤ n → mop_up n done ≡ some done
    mop_up_late zero done h = absurd (omega arith)
    mop_up_late (suc zero) done h = absurd (omega arith)
    mop_up_late (suc (suc n)) done h = refl

pub h_decode_loop-encode :
    (bs : List ℕ) (i : ℕ) (done : List ℕ) (cur : ℕ)
    → All IsByte bs
    → i % 4 ≡ 0
    → h_decode_loop (h_base64_encode bs) (decoding i done cur) ≡ some (done ++ bs)
unfolding h_base64_encode
h_decode_loop-encode [] i done cur h hi = unfold h_decode_loop in ap some (sym (append-nil done))
h_decode_loop-encode (a ∷ []) i done cur h hi =
    let e : a % 4 * 16 ≡ a % 4 * 16 + 0 = omega arith in
    rw (e, h_decode_first a 0 i done cur (pad ∷ pad ∷ []) h.0 (omega arith) hi)
      (h_decode_pad (i + 2) (done ++ a ∷ []) (0 * 16) (pad ∷ []) (omega arith))
h_decode_loop-encode (a ∷ b ∷ []) i done cur h hi =
    let e : b % 16 * 4 ≡ b % 16 * 4 + 0 = omega arith in
    rw
      (
        e,
        h_decode_first a (b / 16) i done cur (base64_table (b % 16 * 4 + 0) ∷ pad ∷ []) h.0
            (omega arith) hi,
        h_decode_second b 0 (i + 2) (done ++ a ∷ []) (pad ∷ []) h.1.0 (omega arith) (omega arith),
        append_assoc,
      )
      (h_decode_pad (i + 2 + 1) (done ++ a ∷ b ∷ []) (0 * 64) [] (omega arith))
h_decode_loop-encode (a ∷ b ∷ c ∷ rest) i done cur h hi =
    h_decode_first a (b / 16) i done cur _ h.0 (omega arith) hi
    ∙ h_decode_second b (c / 64) (i + 2) (done ++ a ∷ []) _ h.1.0 (omega arith) (omega arith)
    ∙ h_decode_third c (i + 2 + 1) ((done ++ a ∷ []) ++ b ∷ []) _ h.1.1.0 (omega arith)
    ∙ h_decode_loop-encode rest (i + 2 + 1 + 1) (((done ++ a ∷ []) ++ b ∷ []) ++ c ∷ []) 0 h.1.1.1
        (omega arith)
    ∙ simp append_assoc
