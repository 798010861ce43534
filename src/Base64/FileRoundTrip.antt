-- ===== src/Base64/FileRoundTrip.antt =====
-- The text that test_dir/en_de_file.c encodes and decodes again.
use logger_verifier.Base64.Alphabet.{base64_table, pad, all_below}
use logger_verifier.Base64.Bitwise.{fill-bits8, same_below, file_encode-eq-h_base64_encode}
use logger_verifier.Base64.Cells.{
  cells_of, padded, cells_of-h_base64_encode, count_pads-base64_table, count_pads_le,
}
use logger_verifier.Base64.Encode.{h_base64_encode}
use logger_verifier.Base64.FileCodec.{
  slots, cell, padding_of, count_pads, eights, decode_cells, file_encode, file_decode,
}
use logger_verifier.Base.{
  ℕ, ◌+◌, ◌-◌, ◌*◌, ◌/◌, ◌%◌, ◌≤◌, ◌<◌, ◌≡◌, refl, ap, ◌∙◌, some, List, [], ◌∷◌, ◌++◌, arith,
  length, replicate, All, IsByte, c_string, NoNul, c_string-append,
}

byte_cells :
    (a : ℕ)
    → a < 256
    → cell 0 (a % 2)
        + cell 1 (a / 2 % 2)
        + cell 2 (a / 4 % 2)
        + cell 3 (a / 8 % 2)
        + cell 4 (a / 16 % 2)
        + cell 5 (a / 32 % 2)
        + cell 6 (a / 64 % 2)
        + cell 7 (a / 128 % 2)
      ≡ a
unfolding all_below cell
byte_cells = same_below _ (λ a. a) refl

-- The groups of eight give the bytes back.
eights-slots : (s more : List ℕ) → All IsByte s → eights (length s) (slots 8 s ++ more) ≡ s
unfolding eights slots
eights-slots [] more h = refl
eights-slots (a ∷ s) more (ha, h) = rw (fill-bits8 a ha) (
    ap (λ l. l ∷ eights (length s) (slots 8 s ++ more)) (byte_cells a ha)
    ∙ ap (λ l. a ∷ l) (eights-slots s more h))

four_characters :
    (w x y z : ℕ) (cs : List ℕ)
    → w < 64
    → x < 64
    → y < 64
    → z < 64
    → count_pads (base64_table w ∷ base64_table x ∷ base64_table y ∷ base64_table z ∷ cs)
      ≡ count_pads cs
four_characters w x y z cs hw hx hy hz =
    count_pads-base64_table w _ hw
    ∙ count_pads-base64_table x _ hx
    ∙ count_pads-base64_table y _ hy
    ∙ count_pads-base64_table z cs hz

two_pads : (count_pads (pad ∷ pad ∷ []) ≡ 2) × (count_pads (pad ∷ []) ≡ 1) × (count_pads [] ≡ 0)
unfolding count_pads
two_pads = (refl, refl, refl)

-- The padding that `decode` counts, and the number of characters in front of it.
sizes :
    (s : List ℕ)
    → All IsByte s
    → (length (h_base64_encode s) * 6 ≡ length s * 8 + count_pads (h_base64_encode s) * 8)
      × (count_pads (h_base64_encode s) ≤ 2)
      × (count_pads (h_base64_encode s) ≤ length s * 2)
unfolding h_base64_encode
sizes [] h =
    let zero_pads = two_pads.2 in
    (omega (arith, zero_pads), omega (arith, zero_pads), omega (arith, zero_pads))
sizes (a ∷ []) (ha, h) =
    let n =
      count_pads-base64_table (a / 4) (base64_table (a % 4 * 16) ∷ pad ∷ pad ∷ []) (omega arith) in
    let m = count_pads-base64_table (a % 4 * 16) (pad ∷ pad ∷ []) (omega arith) in
    let two = two_pads.0 in
    (omega (arith, n, m, two), omega (arith, n, m, two), omega (arith, n, m, two))
sizes (a ∷ b ∷ []) (ha, (hb, h)) =
    let n =
      count_pads-base64_table (a / 4)
        (base64_table (a % 4 * 16 + b / 16) ∷ base64_table (b % 16 * 4) ∷ pad ∷ []) (omega arith) in
    let m =
      count_pads-base64_table (a % 4 * 16 + b / 16) (base64_table (b % 16 * 4) ∷ pad ∷ [])
        (omega arith) in
    let k = count_pads-base64_table (b % 16 * 4) (pad ∷ []) (omega arith) in
    let one = two_pads.1 in
    (omega (arith, n, m, k, one), omega (arith, n, m, k, one), omega (arith, n, m, k, one))
sizes (a ∷ b ∷ c ∷ rest) (ha, (hb, (hc, h))) =
    let (same, few, some_more) = sizes rest h in
    let e =
      four_characters (a / 4) (a % 4 * 16 + b / 16) (b % 16 * 4 + c / 64) (c % 64)
        (h_base64_encode rest) (omega arith) (omega arith) (omega arith) (omega arith) in
    (omega (arith, e, same), omega (arith, e, few), omega (arith, e, some_more))

-- `decode`, once its numbers and its bytes are known.
file_decode_runs :
    (usable : ℕ → ℕ) (junk size : ℕ) (string bytes : List ℕ)
    → size + 1 < usable (size + 1)
    → (length string - count_pads string) * 6 ≡ size * 8 + count_pads string * 2
    → count_pads string ≤ size * 2
    → eights size (decode_cells string (count_pads string)) ≡ bytes
    → file_decode usable junk string ≡ some (c_string (bytes ++ junk ∷ []))
unfolding file_decode
file_decode_runs usable junk size string bytes room filled few back =
    let n : (length string - count_pads string) * 6 - count_pads string * 2 ≡ size * 8 =
      omega (arith, filled) in
    let groups : (size * 8 + 7) / 8 ≡ size = omega arith in
    let whole : size * 8 / 8 ≡ size = omega arith in
    let rest : size * 8 % 8 ≡ 0 = omega arith in
    rw (n, groups, whole, rest, filled, back) (ground arith)

pub file_decode-h_base64_encode :
    (usable : ℕ → ℕ) (junk : ℕ) (s : List ℕ)
    → length s + 1 < usable (length s + 1)
    → All IsByte s
    → NoNul s
    → file_decode usable junk (h_base64_encode s) ≡ some (s ++ c_string (junk ∷ []))
unfolding cells_of padded
file_decode-h_base64_encode usable junk s room bytes text =
    let (same, few, some_more) = sizes s bytes in
    let le = count_pads_le (h_base64_encode s) in
    file_decode_runs usable junk (length s) (h_base64_encode s) s room (omega arith) some_more (
      ap (eights (length s)) (cells_of-h_base64_encode s bytes)
      ∙ eights-slots s (replicate (padding_of s) 0) bytes)
    ∙ ap some (c_string-append s (junk ∷ []) text)

-- Where the allocator gives at least one byte more than `encode` and `decode` of a text ask it for,
-- `encode` writes what `decode` turns back into the text, and behind it the byte that `decode`
-- never writes, unless that byte is a NUL. The text is of bytes other than NUL.
pub file_decode-file_encode :
    (usable : ℕ → ℕ) (junk : ℕ) (s : List ℕ)
    → length (h_base64_encode s) < usable (length (h_base64_encode s))
    → length s + 1 < usable (length s + 1)
    → All IsByte s
    → NoNul s
    → (code : List ℕ) × (file_encode usable s ≡ some code)
      × (file_decode usable junk code ≡ some (s ++ c_string (junk ∷ [])))
file_decode-file_encode usable junk s room room' bytes text = (
  h_base64_encode s,
  file_encode-eq-h_base64_encode usable s room bytes,
  file_decode-h_base64_encode usable junk s room' bytes text,
)
