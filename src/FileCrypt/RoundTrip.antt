-- ===== src/FileCrypt/RoundTrip.antt =====
-- A file that test_dir/en_de_file.c encrypts and decrypts again.
use mathlib.Core.Option.{bind}
use logger_verifier.Base64.Bitwise.{file_encode-eq-h_base64_encode}
use logger_verifier.Base64.Encode.{h_base64_encode}
use logger_verifier.Base64.FileCodec.{file_encode, file_decode}
use logger_verifier.Base64.FileRoundTrip.{file_decode-h_base64_encode}
use logger_verifier.Base64.Shape.{h_base64_encode-NoNul}
use logger_verifier.FileCrypt.Hex.{hex_text-plain, scan_hex-hex_text}
use logger_verifier.FileCrypt.{
  Crypto, Disk, encrypted_size, hex_text, scan_hex, rewrite_file, encrypt_file, decrypt_file,
  encrypt_decrypt_file, file_main,
}
use logger_verifier.Base.{
  ℕ, zero, suc, ◌+◌, ◌-◌, ◌%◌, ◌<◌, ◌≡◌, refl, sym, ap, ◌∙◌, ◌≢◌, ◌⊎◌, inl, inr, true, some, List,
  [], ◌∷◌, ◌++◌, append-nil, append_assoc, arith, ◌==◌, if◌then◌else◌, Bool-cases, length, take,
  replicate, take_all, codes, All, IsByte, bytes_eq, c_string, NoNul, c_string_self,
  c_string-append,
}

-- What OpenSSL documents of AES in CBC mode for a text: whole blocks, the last one filled with
-- zeros, which the other direction gives back. And what the theorem relies on of memory: the
-- allocator gives at least one byte more than is asked for at the two sizes that `encode` and
-- `decode` ask for, and the byte that `decode` does not write is 0.
pub record IsCbc (C : Crypto) (text : List ℕ) : Type 0 where
  pub blocks : length (C.cbc_encrypt text) ≡ encrypted_size (length text)
  pub bytes : All IsByte (C.cbc_encrypt text)
  pub back :
      C.cbc_decrypt (C.cbc_encrypt text)
      ≡ text ++ replicate (encrypted_size (length text) - length text) 0
  pub room_encode :
      length (h_base64_encode (hex_text (C.cbc_encrypt text)))
      < C.usable (length (h_base64_encode (hex_text (C.cbc_encrypt text))))
  pub room_decode :
      length (hex_text (C.cbc_encrypt text)) + 1
      < C.usable (length (hex_text (C.cbc_encrypt text)) + 1)
  pub no_junk : C.junk ≡ 0

encrypted_size_pos : (n : ℕ) → 0 < n → 0 < encrypted_size n
unfolding encrypted_size
encrypted_size_pos n h = ground arith

-- Whether a padding is there.
encrypted_size_pad :
    (n : ℕ)
    → ((n % 16 ≡ 0) × (encrypted_size n - n ≡ 0)) ⊎ ((n % 16 ≢ 0) × (0 < encrypted_size n - n))
unfolding encrypted_size
encrypted_size_pad n = elim (Bool-cases ((n + 16) % 16 == 0)) [
  | inl e ↦ inl (ground arith, ground arith)
  | inr e ↦ inr ((λ q. ground arith), ground arith)
]

scan_hex-nonempty : (bs : List ℕ) → 0 < length bs → All IsByte bs → scan_hex (hex_text bs) ≡ some bs
scan_hex-nonempty [] h hs = absurd (omega arith)
scan_hex-nonempty (b ∷ bs) h (hb, hs) = scan_hex-hex_text b bs hb hs

-- The text that the last `fprintf` writes.
abbrev pub decrypted : Crypto → List ℕ → List ℕ
decrypted C text = text ++ (if length text % 16 == 0 then c_string C.after else [])

zeros_end : (k : ℕ) (after : List ℕ) → 0 < k → c_string (replicate k 0 ++ after) ≡ []
unfolding c_string
zeros_end zero after h = absurd (omega arith)
zeros_end (suc k) after h = refl

if_rest : (k : ℕ) (s : List ℕ) → k ≢ 0 → (if k == 0 then s else []) ≡ []
if_rest k s h = ground arith

padded_text :
    (C : Crypto) (text : List ℕ)
    → NoNul text
    → c_string ((text ++ replicate (encrypted_size (length text) - length text) 0) ++ C.after)
      ≡ decrypted C text
padded_text C text h =
    let pads = encrypted_size (length text) - length text in
    ap c_string (append_assoc text (replicate pads 0) C.after)
    ∙ c_string-append text (replicate pads 0 ++ C.after) h
    ∙ ap (λ t. text ++ t)
        (elim (encrypted_size_pad (length text)) [
          | inl (full, empty) ↦
              ap (λ k. c_string (replicate k 0 ++ C.after)) empty
              ∙ sym (ap (λ k. if k == 0 then c_string C.after else []) full)
          | inr (rest, some_pads) ↦
              zeros_end pads C.after some_pads
              ∙ sym (if_rest (length text % 16) (c_string C.after) rest)
        ])

no_junk_text : (k : ℕ) → k ≡ 0 → c_string (k ∷ []) ≡ []
unfolding c_string
no_junk_text k h = ground arith

module _ (C : Crypto) (text : List ℕ) (cbc : IsCbc C text) where
  rewrite_file-NoNul :
      (disk : Disk) (bytes : List ℕ)
      → disk.writable ≡ true
      → rewrite_file C disk bytes ≡ some (record disk { content = some (c_string bytes) })
  unfolding rewrite_file
  rewrite_file-NoNul disk bytes h = rw h refl

  -- The text that the encryption writes.
  abbrev pub code : List ℕ
  code = h_base64_encode (hex_text (C.cbc_encrypt text))

  encrypt_file-code :
      (disk : Disk)
      → disk.writable ≡ true
      → encrypt_file C disk text ≡ some (record disk { content = some code })
  unfolding encrypt_file bind
  encrypt_file-code disk h =
      let enc = C.cbc_encrypt text in
      let (plain, bytes) = hex_text-plain enc cbc.bytes in
      let all : take (encrypted_size (length text)) enc ≡ enc =
        take_all (encrypted_size (length text)) enc (omega (arith, cbc.blocks)) in
      let string : c_string (hex_text enc) ≡ hex_text enc = c_string_self (hex_text enc) plain in
      let encoded = file_encode-eq-h_base64_encode C.usable (hex_text enc) cbc.room_encode bytes in
      let written = rewrite_file-NoNul disk code h in
      let whole = c_string_self code (h_base64_encode-NoNul (hex_text enc) bytes) in
      ap (λ b. bind (file_encode C.usable (c_string (hex_text b))) (rewrite_file C disk)) all
      ∙ ap (λ t. bind (file_encode C.usable t) (rewrite_file C disk)) string
      ∙ ap (λ o. bind o (rewrite_file C disk)) encoded
      ∙ written
      ∙ ap (λ t. some (record disk { content = some t })) whole

  decrypt_file-text :
      (disk : Disk)
      → 0 < length text
      → NoNul text
      → disk.writable ≡ true
      → decrypt_file C disk code ≡ some (record disk { content = some (decrypted C text) })
  unfolding decrypt_file bind
  decrypt_file-text disk pos text_plain h =
      let enc = C.cbc_encrypt text in
      let (plain, bytes) = hex_text-plain enc cbc.bytes in
      let whole = c_string_self code (h_base64_encode-NoNul (hex_text enc) bytes) in
      let decoded =
        file_decode-h_base64_encode C.usable C.junk (hex_text enc) cbc.room_decode bytes plain in
      let scanned =
        scan_hex-nonempty enc (omega (arith, cbc.blocks, encrypted_size_pos (length text) pos))
          cbc.bytes in
      let written = rewrite_file-NoNul disk (C.cbc_decrypt enc ++ C.after) h in
      let back = ap (λ t. c_string (t ++ C.after)) cbc.back ∙ padded_text C text text_plain in
      let rest = λ (binary : List ℕ). rewrite_file C disk (C.cbc_decrypt binary ++ C.after) in
      ap (λ t. bind (bind (file_decode C.usable C.junk t) scan_hex) rest) whole
      ∙ ap (λ o. bind (bind o scan_hex) rest) decoded
      ∙ ap (λ t. bind (scan_hex t) rest)
          (ap (λ t. hex_text enc ++ t) (no_junk_text C.junk cbc.no_junk)
            ∙ append-nil (hex_text enc))
      ∙ ap (λ o. bind o rest) scanned
      ∙ written
      ∙ ap (λ t. some (record disk { content = some t })) back

  -- With the argument `encrypt`, `main` turns a file of some bytes without a NUL into a text, and
  -- with `decrypt` that text into the file's bytes, where their number is no multiple of 16. Where it is one, no padding ends the
  -- text, and what memory holds behind it is written too, up to the first NUL. AES is taken to do
  -- what it documents, the allocator to give at least one byte more than `encode` and `decode` ask for, and
  -- the byte that `decode` leaves unset to be 0.
  pub decrypt-encrypt :
      (disk : Disk) (path : List ℕ)
      → 0 < length text
      → NoNul text
      → disk.content ≡ some text
      → disk.writable ≡ true
      → (encrypted : Disk) × (file_main C (codes "encrypt" ∷ path ∷ []) disk ≡ some encrypted)
        × (file_main C (codes "decrypt" ∷ path ∷ []) encrypted
            ≡ some (record disk {
              content = some (text ++ (if length text % 16 == 0 then c_string C.after else []));
            }))
  unfolding file_main encrypt_decrypt_file bind bytes_eq
  decrypt-encrypt disk path pos plain there h = (
    record disk { content = some code },
    ground (arith, encrypt_file-code disk h),
    decrypt_file-text (record disk { content = some code }) pos plain h,
  )
