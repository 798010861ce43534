-- ===== src/FileCrypt/Tests.antt =====
-- The encryption of a file at concrete inputs, with a cipher that only fills the last block, and an
-- allocator of blocks of 16 bytes, of which the block's size takes eight.
use mathlib.Core.Option.{bind}
use logger_verifier.FileCrypt.{
  Crypto, Disk, encrypted_size, hex_text, hex_digit, scan_hex, scan_from, digit_value, is_space,
  file_main,
}
use logger_verifier.Base64.Encode.{h_base64_encode}
use logger_verifier.FileCrypt.RoundTrip.{IsCbc, decrypt-encrypt}
use logger_verifier.Base.{
  ◌+◌, ◌-◌, ◌*◌, ◌/◌, ◌≡◌, refl, true, none, some, [], ◌∷◌, ◌++◌, arith, length, replicate, codes,
  bytes_eq,
}

abbrev filling : Crypto
filling = record {
  cbc_encrypt = λ text. text ++ replicate (encrypted_size (length text) - length text) 0;
  cbc_decrypt = λ bytes. bytes;
  usable = λ n. (n + 23) / 16 * 16 - 8;
  junk = 0;
  after = codes "behind";
}

filling-IsCbc : IsCbc filling (codes "hi")
unfolding encrypted_size h_base64_encode hex_text
filling-IsCbc = record {
  blocks = refl;
  bytes = omega arith;
  back = refl;
  room_encode = ground arith;
  room_decode = ground arith;
  no_junk = refl;
}

abbrev disk : Disk
disk = record { content = some (codes "hi"); writable = true }

decrypt-encrypt_example :
    (encrypted : Disk) × (file_main filling (codes "encrypt" ∷ codes "hi.txt" ∷ []) disk
      ≡ some encrypted)
    × (file_main filling (codes "decrypt" ∷ codes "hi.txt" ∷ []) encrypted
        ≡ some (record disk { content = some (codes "hi" ++ []) }))
decrypt-encrypt_example =
    decrypt-encrypt filling (codes "hi") filling-IsCbc disk (codes "hi.txt") (omega arith)
      ((λ e. omega arith), ((λ e. omega arith), tt)) refl refl

written : hex_text (1 ∷ 255 ∷ []) ≡ codes "0x01 0xff "
unfolding hex_text hex_digit
written = refl

read_back : scan_hex (codes "0x01  0xFf") ≡ some (1 ∷ 255 ∷ [])
unfolding scan_hex scan_from digit_value is_space bind
read_back = refl

-- A stray byte at the end is never read, and the loop never ends.
stray : scan_hex (codes "0x01 ?") ≡ none
unfolding scan_hex scan_from digit_value is_space
stray = refl

other_option : file_main filling (codes "help" ∷ codes "hi.txt" ∷ []) disk ≡ some disk
unfolding file_main bytes_eq
other_option = refl
