-- ===== src/Base64/TestDecode.antt =====
-- `base64_decode` of helloworld/test_bs64.cc.
use logger_verifier.Base.Bits.{shr, shl, low_bits}
use logger_verifier.Base64.Alphabet.{pad, reverse_table, is_base64}
use logger_verifier.Base.{
  ℕ, ◌+◌, ◌%◌, bit_and, Bool, true, false, not, ◌&&◌, none, some, List, [], ◌∷◌, ◌++◌, ◌==◌, take,
}

-- `base64_chars.find(c)` as an `unsigned char`: 255 where the character is not found.
unfoldable pub find_value : ℕ → ℕ
find_value c = elim (reverse_table c) [ none ↦ 255 | some k ↦ k ]

-- `char_array_3`, from the values in `char_array_4`.
unfoldable pub char_array_3 : ℕ → ℕ → ℕ → ℕ → List ℕ
char_array_3 w x y z =
    ((shl w 2 + shr (bit_and x 0x30) 4) % 256)
    ∷ ((shl (low_bits x 4) 4 + shr (bit_and y 0x3c) 2) % 256)
    ∷ ((shl (low_bits y 2) 6 + z) % 256)
    ∷ []

-- What follows the loop: the characters that are left, filled up with NULs.
unfoldable pub t_finish : List ℕ → List ℕ
unfolding find_value char_array_3
t_finish (a ∷ b ∷ []) =
    take 1 (char_array_3 (find_value a) (find_value b) (find_value 0) (find_value 0))
t_finish (a ∷ b ∷ c ∷ more) =
    take 2 (char_array_3 (find_value a) (find_value b) (find_value c) (find_value 0))
t_finish _ = []

-- The condition of the loop.
unfoldable pub t_takes : ℕ → Bool
t_takes c = not (c == pad) && is_base64 c

-- The loop; `pending` is the part of `char_array_4` that is filled.
unfoldable pub t_base64_decode : List ℕ → List ℕ → List ℕ
t_base64_decode pending [] = t_finish pending
t_base64_decode [] (c ∷ cs) = elim (t_takes c) [
  | true ↦ t_base64_decode (c ∷ []) cs
  | false ↦ t_finish []
]
t_base64_decode (a ∷ []) (c ∷ cs) = elim (t_takes c) [
  | true ↦ t_base64_decode (a ∷ c ∷ []) cs
  | false ↦ t_finish (a ∷ [])
]
t_base64_decode (a ∷ b ∷ []) (c ∷ cs) = elim (t_takes c) [
  | true ↦ t_base64_decode (a ∷ b ∷ c ∷ []) cs
  | false ↦ t_finish (a ∷ b ∷ [])
]
t_base64_decode (a ∷ b ∷ d ∷ more) (c ∷ cs) = elim (t_takes c) [
  | true ↦
      char_array_3 (find_value a) (find_value b) (find_value d) (find_value c)
      ++ t_base64_decode [] cs
  | false ↦ t_finish (a ∷ b ∷ d ∷ more)
]
