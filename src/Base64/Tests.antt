-- ===== src/Base64/Tests.antt =====
-- Runs of the codecs, and their theorems at "Hello".
use logger_verifier.Base64.Alphabet.{base64_table, reverse_table, is_base64}
use logger_verifier.Base64.Encode.{h_base64_encode, b_base64_encode, char_array_4, t_base64_encode}
use logger_verifier.Base64.Decode.{h_base64_decode, b_base64_decode}
use logger_verifier.Base64.Shape.{IsText, h_base64_encode-IsText, length-h_base64_encode}
use logger_verifier.Base64.Agree.{
  b_base64_encode-eq-h_base64_encode, t_base64_encode-eq-h_base64_encode,
}
use logger_verifier.Base64.TestDecode.{find_value, char_array_3, t_finish, t_takes, t_base64_decode}
use logger_verifier.Base64.TestAgree.{t_base64_decode-eq-b_base64_decode, t_base64_decode-encode}
use logger_verifier.Base64.FileCodec.{
  eights, count_pads, decode_cells, padding_of, encoded_text, file_encode, file_decode,
}
use logger_verifier.Base64.FileRoundTrip.{file_decode-file_encode}
use logger_verifier.Base64.RoundTrip.{h_base64_decode-encode, b_base64_decode-encode}
use logger_verifier.Base.{
  ℕ, suc, ◌+◌, ◌-◌, ◌*◌, ◌/◌, ◌%◌, ◌≤◌, ◌≡◌, refl, some, List, [], ◌∷◌, ◌++◌, arith, length, codes,
  c_string,
}

abbrev hello : List ℕ
hello = codes "Hello"

h_run : h_base64_encode hello ≡ codes "SGVsbG8="
unfolding h_base64_encode base64_table
h_run = refl

b_run : b_base64_encode hello ≡ codes "SGVsbG8="
unfolding b_base64_encode base64_table
b_run = refl

t_run : t_base64_encode [] hello ≡ codes "SGVsbG8="
unfolding t_base64_encode char_array_4 base64_table
t_run = refl

-- The decoder reads a space as a plus, and passes over a line break.
h_decode_run : h_base64_decode (codes "SGVs" ++ 10 ∷ codes "bG8=") ≡ some hello
unfolding h_base64_decode reverse_table
h_decode_run = refl

length_of_two :
    (length (h_base64_encode hello) ≡ (5 + 2) / 3 * 4)
    × (length (h_base64_encode hello) + 1 ≤ (5 + 3 - 5 % 3) * 4 / 3 + 1)
length_of_two = length-h_base64_encode hello

b_base64_encode-eq-h_base64_encode_example : b_base64_encode hello ≡ h_base64_encode hello
b_base64_encode-eq-h_base64_encode_example = b_base64_encode-eq-h_base64_encode hello (omega arith)

hello_agrees : t_base64_encode [] hello ≡ h_base64_encode hello
hello_agrees = t_base64_encode-eq-h_base64_encode hello (omega arith)

h_base64_decode-encode_example : h_base64_decode (h_base64_encode hello) ≡ some hello
h_base64_decode-encode_example = h_base64_decode-encode hello (omega arith)

b_base64_decode-encode_example : b_base64_decode (b_base64_encode hello) ≡ hello
b_base64_decode-encode_example = b_base64_decode-encode hello (omega arith)

-- A text that breaks off in a group: three characters give two bytes.
t_decode_run : t_base64_decode [] (codes "SGVsbG8!SGVs") ≡ hello
unfolding t_base64_decode t_finish char_array_3 find_value reverse_table t_takes is_base64
t_decode_run = refl

t_base64_decode-eq-b_base64_decode_example :
    t_base64_decode [] (codes "SGVsbG8!SGVs") ≡ b_base64_decode (codes "SGVsbG8!SGVs")
t_base64_decode-eq-b_base64_decode_example =
    t_base64_decode-eq-b_base64_decode (codes "SGVsbG8!SGVs") (omega arith)

hello_again : t_base64_decode [] (t_base64_encode [] hello) ≡ hello
hello_again = t_base64_decode-encode hello (omega arith)

-- The file codec.
encode_abcd : file_encode suc (codes "abcd") ≡ some (codes "YWJjZA==")
unfolding file_encode padding_of encoded_text base64_table
encode_abcd = refl

decode_abcd : file_decode suc 0 (codes "YWJjZA==") ≡ some (codes "abcd")
unfolding file_decode decode_cells count_pads eights reverse_table c_string
decode_abcd = refl

-- A byte that was not 0 stands behind the text.
decode_junk : file_decode suc 7 (codes "YWJj") ≡ some (codes "abc" ++ 7 ∷ [])
unfolding file_decode decode_cells count_pads eights reverse_table c_string
decode_junk = refl

-- An allocator of blocks of 16 bytes, of which the block's size takes eight.
abbrev blocks : ℕ → ℕ
blocks n = (n + 23) / 16 * 16 - 8

file_decode-file_encode_example :
    (code : List ℕ) × (file_encode blocks (65 ∷ 66 ∷ []) ≡ some code)
    × (file_decode blocks 7 code ≡ some ((65 ∷ 66 ∷ []) ++ c_string (7 ∷ [])))
unfolding h_base64_encode
file_decode-file_encode_example =
    file_decode-file_encode blocks 7 (65 ∷ 66 ∷ []) (ground arith) (omega arith)
      (omega arith, (omega arith, tt)) ((λ e. ground arith), ((λ e. ground arith), tt))

h_base64_encode-IsText_example :
    (text : IsText (h_base64_encode hello)) × (text.pads ≡ 2 * length hello % 3)
h_base64_encode-IsText_example = h_base64_encode-IsText hello (omega arith)
