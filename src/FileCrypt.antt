-- ===== src/FileCrypt.antt =====
-- `encrypt_decrypt_file` and `main` of test_dir/en_de_file.c, which replace a file by its encrypted
-- or decrypted text, over the AES calls of OpenSSL, a parameter. `none` is undefined behaviour or
-- the end of the program.
pub mod Hex
pub mod RoundTrip
mod Tests
use mathlib.Core.Option.{bind}
use logger_verifier.Base64.FileCodec.{file_encode, file_decode}
use logger_verifier.Base.{
  ℕ, ◌+◌, ◌-◌, ◌*◌, ◌/◌, ◌%◌, ◌^◌, Bool, true, false, ◌&&◌, ◌||◌, Option, none, some, List, [], ◌∷◌,
  ◌++◌, ltb, leb, ◌==◌, if◌then◌else◌, length, take, codes, bytes_eq, c_string,
}

-- `AES_cbc_encrypt` with the built-in key and the vector 0, in both directions; `usable n` is how
-- many bytes the allocator gives for `n`. `junk` is the byte that `decode` does not write, and
-- `after` what memory holds behind `dec_out`.
pub record Crypto : Type 0 where
  pub cbc_encrypt : List ℕ → List ℕ
  pub cbc_decrypt : List ℕ → List ℕ
  pub usable : ℕ → ℕ
  pub junk : ℕ
  pub after : List ℕ

-- A file, if it is there, and whether it can be written.
pub record Disk : Type 0 where
  pub content : Option (List ℕ)
  pub writable : Bool

abbrev pub aes_block_size : ℕ
aes_block_size = 16

-- `length_enc_out`
unfoldable pub encrypted_size : ℕ → ℕ
encrypted_size n =
    if (n + aes_block_size) % aes_block_size == 0
    then n
    else (n + aes_block_size) / aes_block_size * aes_block_size

-- A digit of `%02x`.
unfoldable pub hex_digit : ℕ → ℕ
hex_digit d = if ltb d 10 then d + 48 else d + 87

-- `fprintf(temporary_file, "0x%02x ", …)` for each byte.
unfoldable pub hex_text : List ℕ → List ℕ
unfolding hex_digit
hex_text [] = []
hex_text (b ∷ bs) = 48 ∷ 120 ∷ hex_digit (b / 16) ∷ hex_digit (b % 16) ∷ 32 ∷ hex_text bs

-- The value of a character that `%x` reads.
unfoldable pub digit_value : ℕ → Option ℕ
digit_value c =
    if leb 48 c && leb c 57
    then some (c - 48)
    else if leb 97 c && leb c 102
    then some (c - 87)
    else if leb 65 c && leb c 70
    then some (c - 55)
    else none

unfoldable pub is_space : ℕ → Bool
is_space c = c == 32 || (leb 9 c && leb c 13)

-- Where `fscanf(temporary_file, "0x%x ", &in)` stands in the text: at the two characters of the
-- format, at the first digit, among the digits with their value, or behind them at white space.
pub data Scan : Type 0 where
  at_zero at_x at_digit : Scan
  in_number in_space : ℕ → Scan

-- The loop until `feof`, with the bytes stored. A character that the format does not take ends no
-- loop: `in` is never set, and the loop goes on behind the buffer. So does the end of the text in
-- front of a number. A sign, a second `0x` or a number of more than 32 bits, which `%x` would take
-- too, is not written by the encryption, and is `none` here.
unfoldable pub scan_from : Scan → List ℕ → Option (List ℕ)
scan_from at_zero [] = none
scan_from at_zero (c ∷ cs) = if c == 48 then scan_from at_x cs else none
scan_from at_x [] = none
scan_from at_x (c ∷ cs) = if c == 120 then scan_from at_digit cs else none
scan_from at_digit [] = none
scan_from at_digit (c ∷ cs) = elim (digit_value c) [
  | none ↦ none
  | some d ↦ scan_from (in_number d) cs
]
scan_from (in_number n) [] = some (n % 256 ∷ [])
scan_from (in_number n) (c ∷ cs) = elim (digit_value c) [
  | none ↦ if is_space c then scan_from (in_space n) cs else none
  | some d ↦ elim (ltb (n * 16 + d) (2 ^ 32)) [
    | true ↦ scan_from (in_number (n * 16 + d)) cs
    | false ↦ none
  ]
]
scan_from (in_space n) [] = some (n % 256 ∷ [])
scan_from (in_space n) (c ∷ cs) = elim (is_space c) [
  | true ↦ scan_from (in_space n) cs
  | false ↦ if c == 48 then bind (scan_from at_x cs) (λ bs. some (n % 256 ∷ bs)) else none
]

unfoldable pub scan_hex : List ℕ → Option (List ℕ)
unfolding scan_from
scan_hex = scan_from at_zero

module _ (C : Crypto) where
  -- `fopen(path, "w")` and `fprintf` of a text; a file that cannot be written is a NULL stream.
  unfoldable pub rewrite_file : Disk → List ℕ → Option Disk
  rewrite_file disk text =
      if disk.writable then some (record disk { content = some (c_string text) }) else none

  unfoldable pub encrypt_file : Disk → List ℕ → Option Disk
  encrypt_file disk bytes =
      let enc_out = take (encrypted_size (length bytes)) (C.cbc_encrypt bytes) in
      bind (file_encode C.usable (c_string (hex_text enc_out))) (rewrite_file disk)

  unfoldable pub decrypt_file : Disk → List ℕ → Option Disk
  decrypt_file disk bytes =
      bind (bind (file_decode C.usable C.junk (c_string bytes)) scan_hex)
        (λ binary. rewrite_file disk (C.cbc_decrypt binary ++ C.after))

  -- Without the file the program ends.
  unfoldable pub encrypt_decrypt_file : Disk → List ℕ → Option Disk
  encrypt_decrypt_file disk option = bind disk.content (λ bytes.
      if bytes_eq option (codes "encrypt")
      then encrypt_file disk bytes
      else if bytes_eq option (codes "decrypt")
      then decrypt_file disk bytes
      else some disk)

  -- `main` with the arguments behind the program's name; the second is the path.
  unfoldable pub file_main : List (List ℕ) → Disk → Option Disk
  file_main (option ∷ path ∷ []) disk =
      if bytes_eq option (codes "encrypt")
      then encrypt_decrypt_file disk (codes "encrypt")
      else if bytes_eq option (codes "decrypt")
      then encrypt_decrypt_file disk (codes "decrypt")
      else some disk
  file_main _ disk = some disk
