-- ===== src/Base64/RoundTrip.antt =====
-- Decoding what was encoded.
use logger_verifier.Base64.Alphabet.{base64_table, pad, reverse_table, reverse_table-base64_table}
use logger_verifier.Base64.Encode.{h_base64_encode, b_base64_encode}
use logger_verifier.Base64.Decode.{h_base64_decode, b_decode_next, b_decode_loop, b_base64_decode}
use logger_verifier.Base64.Agree.{b_base64_encode-eq-h_base64_encode}
use logger_verifier.Base.{
  ℕ, ◌+◌, ◌*◌, ◌/◌, ◌%◌, ◌^◌, ◌<◌, ◌≡◌, refl, some, List, [], ◌∷◌, ◌++◌, arith, All, IsByte,
}
use logger_verifier.Base64.DecodeLoop.{h_decode_loop-encode}

-- `h_base64_decode` gives back every byte string that `h_base64_encode` was given.
pub h_base64_decode-encode :
    (bs : List ℕ) → All IsByte bs → h_base64_decode (h_base64_encode bs) ≡ some bs
unfolding h_base64_decode
h_base64_decode-encode bs h = h_decode_loop-encode bs 0 [] 0 h refl

-- One round of `b_base64_decode` on a character of the alphabet.
b_decode_character :
    (k val bits : ℕ) (cs : List ℕ)
    → k < 64
    → b_decode_loop (base64_table k ∷ cs) val bits
      ≡ (b_decode_next (val * 64 % 2 ^ 32 + k) (bits + 6)).0
        ++ b_decode_loop cs
            (val * 64 % 2 ^ 32 + k)
            (b_decode_next (val * 64 % 2 ^ 32 + k) (bits + 6)).1
unfolding b_decode_loop
b_decode_character k val bits cs h = rw (reverse_table-base64_table k h, b_decode_loop)

b_decode_first :
    (a lo4 val : ℕ) (cs : List ℕ)
    → a < 256
    → lo4 < 16
    → (v : ℕ) × (b_decode_loop (base64_table (a / 4) ∷ base64_table (a % 4 * 16 + lo4) ∷ cs) val 0
        ≡ a ∷ b_decode_loop cs v 4)
      × (v % 16 ≡ lo4)
unfolding b_decode_next
b_decode_first a lo4 val cs ha hl =
    let v : ℕ = (val * 64 % 2 ^ 32 + a / 4) * 64 % 2 ^ 32 + (a % 4 * 16 + lo4) in
    let e : v / 16 % 256 ≡ a = omega arith in
    (
      v,
      rw (
        b_decode_character (a / 4) val 0 (base64_table (a % 4 * 16 + lo4) ∷ cs) (omega arith),
        b_decode_character (a % 4 * 16 + lo4) (val * 64 % 2 ^ 32 + a / 4) 6 cs (omega arith),
        e,
      ),
      omega arith,
    )

b_decode_second :
    (b lo2 val : ℕ) (cs : List ℕ)
    → b < 256
    → lo2 < 4
    → val % 16 ≡ b / 16
    → (v : ℕ) × (b_decode_loop (base64_table (b % 16 * 4 + lo2) ∷ cs) val 4
        ≡ b ∷ b_decode_loop cs v 2)
      × (v % 4 ≡ lo2)
unfolding b_decode_next
b_decode_second b lo2 val cs hb hl hv =
    let v : ℕ = val * 64 % 2 ^ 32 + (b % 16 * 4 + lo2) in
    let e : v / 4 % 256 ≡ b = omega arith in
    (v, rw (b_decode_character (b % 16 * 4 + lo2) val 4 cs (omega arith), e), omega arith)

b_decode_third :
    (c val : ℕ) (cs : List ℕ)
    → c < 256
    → val % 4 ≡ c / 64
    → (v : ℕ) × (b_decode_loop (base64_table (c % 64) ∷ cs) val 2 ≡ c ∷ b_decode_loop cs v 0)
unfolding b_decode_next
b_decode_third c val cs hc hv =
    let v : ℕ = val * 64 % 2 ^ 32 + c % 64 in
    let e : v / 1 % 256 ≡ c = omega arith in
    (v, rw (b_decode_character (c % 64) val 2 cs (omega arith), e))

b_decode_pad : (val bits : ℕ) (cs : List ℕ) → b_decode_loop (pad ∷ cs) val bits ≡ []
unfolding b_decode_loop reverse_table
b_decode_pad val bits cs = refl

b_decode_loop-encode :
    (bs : List ℕ) (val : ℕ) → All IsByte bs → b_decode_loop (h_base64_encode bs) val 0 ≡ bs
unfolding h_base64_encode
b_decode_loop-encode [] val h = unfold b_decode_loop in refl
b_decode_loop-encode (a ∷ []) val h =
    let e : a % 4 * 16 ≡ a % 4 * 16 + 0 = omega arith in
    let (v, p, _) = b_decode_first a 0 val (pad ∷ pad ∷ []) h.0 (omega arith) in
    rw (e, p, b_decode_pad)
b_decode_loop-encode (a ∷ b ∷ []) val h =
    let e : b % 16 * 4 ≡ b % 16 * 4 + 0 = omega arith in
    let (v, p, q) =
      b_decode_first a (b / 16) val (base64_table (b % 16 * 4 + 0) ∷ pad ∷ []) h.0 (omega arith) in
    let (v', p', _) = b_decode_second b 0 v (pad ∷ []) h.1.0 (omega arith) q in
    rw (e, p, p', b_decode_pad)
b_decode_loop-encode (a ∷ b ∷ c ∷ rest) val h =
    let (v, p, q) =
      b_decode_first a (b / 16) val
        (base64_table (b % 16 * 4 + c / 64) ∷ base64_table (c % 64) ∷ h_base64_encode rest) h.0
        (omega arith) in
    let (v', p', q') =
      b_decode_second b (c / 64) v (base64_table (c % 64) ∷ h_base64_encode rest) h.1.0
        (omega arith) q in
    let (v'', p'') = b_decode_third c v' (h_base64_encode rest) h.1.1.0 q' in
    rw (p, p', p'', b_decode_loop-encode rest v'' h.1.1.1)

-- `b_base64_decode` gives back every byte string that `b_base64_encode` was given.
pub b_base64_decode-encode :
    (bs : List ℕ) → All IsByte bs → b_base64_decode (b_base64_encode bs) ≡ bs
unfolding b_base64_decode
b_base64_decode-encode bs h =
    rw (b_base64_encode-eq-h_base64_encode bs h) (b_decode_loop-encode bs 0 h)
