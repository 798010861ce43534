-- ===== src/Base64/Encode.antt =====
-- The three encoders. An `unsigned char` is a number below 256.
use logger_verifier.Base.Bits.{shr, shl, low_bits}
use logger_verifier.Base64.Alphabet.{base64_table, pad}
use logger_verifier.Base.{
  ℕ, zero, suc, ◌+◌, ◌-◌, ◌%◌, ◌^◌, bit_and, List, [], ◌∷◌, ◌++◌, map, ltb, leb, ◌==◌,
  if◌then◌else◌, length, take,
}

-- `h_base64_encode`: groups of three bytes, then one or two bytes that are left.
unfoldable pub h_base64_encode : List ℕ → List ℕ
h_base64_encode [] = []
h_base64_encode (a ∷ []) =
    base64_table (shr a 2) ∷ base64_table (shl (low_bits a 2) 4) ∷ pad ∷ pad ∷ []
h_base64_encode (a ∷ b ∷ []) =
    base64_table (shr a 2)
    ∷ base64_table (shl (low_bits a 2) 4 + shr b 4)
    ∷ base64_table (shl (low_bits b 4) 2)
    ∷ pad
    ∷ []
h_base64_encode (a ∷ b ∷ c ∷ rest) =
    base64_table (shr a 2)
    ∷ base64_table (shl (low_bits a 2) 4 + shr b 4)
    ∷ base64_table (shl (low_bits b 4) 2 + shr c 6)
    ∷ base64_table (low_bits c 6)
    ∷ h_base64_encode rest

-- `b_base64_encode` keeps its pending bits in the `int` `val`, here the 32 bits of its pattern, and
-- counts them in `valb`, here `bits`, which is `valb + 6`.

-- The inner loop, `while (valb >= 0)`. Each round takes six bits, so `bits` rounds are enough.
unfoldable pub b_emit : ℕ → ℕ → ℕ → List ℕ × ℕ
b_emit zero val bits = ([], bits)
b_emit (suc f) val bits =
    let rest = b_emit f val (bits - 6) in
    if leb 6 bits
    then (base64_table (low_bits (shr val (bits - 6)) 6) ∷ rest.0, rest.1)
    else ([], bits)

-- The loop over the input, and `if (valb > -6)` behind it.
unfoldable pub b_encode_loop : List ℕ → ℕ → ℕ → List ℕ
unfolding b_emit
b_encode_loop [] val bits =
    if ltb 0 bits then base64_table (low_bits (shr (shl val 8 % 2 ^ 32) (bits + 2)) 6) ∷ [] else []
b_encode_loop (c ∷ cs) val bits =
    let val' = shl val 8 % 2 ^ 32 + c in
    let (out, bits') = b_emit (bits + 8) val' (bits + 8) in out ++ b_encode_loop cs val' bits'

-- `while (out.size() % 4) out.push_back('=')`: three rounds at most.
unfoldable pub pad_out : ℕ → List ℕ → List ℕ
pad_out zero out = out
pad_out (suc f) out =
    let longer = pad_out f (out ++ pad ∷ []) in if length out % 4 == 0 then out else longer

unfoldable pub b_base64_encode : List ℕ → List ℕ
unfolding b_encode_loop pad_out
b_base64_encode input = pad_out 3 (b_encode_loop input 0 0)

-- `char_array_4` of `base64_encode` as a list, from the three bytes in `char_array_3`.
unfoldable pub char_array_4 : ℕ → ℕ → ℕ → List ℕ
char_array_4 a b c =
    shr (bit_and a 0xfc) 2
    ∷ (shl (low_bits a 2) 4 + shr (bit_and b 0xf0) 4)
    ∷ (shl (low_bits b 4) 2 + shr (bit_and c 0xc0) 6)
    ∷ low_bits c 6
    ∷ []

-- `base64_encode` of helloworld/test_bs64.cc: `pending` is the part of `char_array_3` that is
-- filled, of `i` bytes. At the end of the input the rest is filled with NULs.
unfoldable pub t_base64_encode : List ℕ → List ℕ → List ℕ
t_base64_encode [] [] = []
t_base64_encode (a ∷ []) [] = map base64_table (take 2 (char_array_4 a 0 0)) ++ pad ∷ pad ∷ []
t_base64_encode (a ∷ b ∷ []) [] = map base64_table (take 3 (char_array_4 a b 0)) ++ pad ∷ []
t_base64_encode (a ∷ b ∷ c ∷ more) [] = map base64_table (char_array_4 a b c)
t_base64_encode [] (x ∷ input) = t_base64_encode (x ∷ []) input
t_base64_encode (a ∷ []) (x ∷ input) = t_base64_encode (a ∷ x ∷ []) input
t_base64_encode (a ∷ b ∷ more) (x ∷ input) =
    map base64_table (char_array_4 a b x) ++ t_base64_encode [] input
