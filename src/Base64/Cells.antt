-- ===== src/Base64/Cells.antt =====
-- `decode` of test_dir/en_de_file.c finds the cells again that `encode` has made.
use logger_verifier.Base64.Alphabet.{
  base64_table, pad, all_below, all_below_sound, base64_table_range, reverse_table-base64_table,
}
use logger_verifier.Base64.Bitwise.{bits8, fill-bits8, padding-three}
use logger_verifier.Base64.Encode.{h_base64_encode}
use logger_verifier.Base64.FileCodec.{
  fill, slots, padding_from, padding_of, count_pads, alphabet_index, decode_cells,
}
use logger_verifier.Base.{
  ℕ, suc, ◌+◌, ◌-◌, ◌*◌, ◌/◌, ◌%◌, ◌≤◌, ◌<◌, ◌≡◌, refl, sym, ap, ◌∙◌, List, [], ◌∷◌, ◌++◌, arith,
  length, replicate, All, IsByte, bytes_eq, bytes_eq→eq,
}

abbrev bits6 : ℕ → List ℕ
bits6 v = v / 32 % 2 ∷ v / 16 % 2 ∷ v / 8 % 2 ∷ v / 4 % 2 ∷ v / 2 % 2 ∷ v % 2 ∷ []

fill-bits6 : (v : ℕ) → v < 64 → fill 6 v [] ≡ bits6 v
unfolding all_below fill bytes_eq
fill-bits6 v h =
    bytes_eq→eq (fill 6 v []) (bits6 v)
      (all_below_sound 64 (λ x. bytes_eq (fill 6 x []) (bits6 x)) refl v h)

bits6-upper_six :
    (a : ℕ)
    → a < 256
    → bits6 (a / 4)
      ≡ a / 128 % 2 ∷ a / 64 % 2 ∷ a / 32 % 2 ∷ a / 16 % 2 ∷ a / 8 % 2 ∷ a / 4 % 2 ∷ []
bits6-upper_six a ha =
    let e5 : (a / 4) / 32 % 2 ≡ a / 128 % 2 = omega arith in
    let e4 : (a / 4) / 16 % 2 ≡ a / 64 % 2 = omega arith in
    let e3 : (a / 4) / 8 % 2 ≡ a / 32 % 2 = omega arith in
    let e2 : (a / 4) / 4 % 2 ≡ a / 16 % 2 = omega arith in
    let e1 : (a / 4) / 2 % 2 ≡ a / 8 % 2 = omega arith in
    let e0 : (a / 4) % 2 ≡ a / 4 % 2 = omega arith in cc

bits6-middle_left :
    (a b : ℕ)
    → a < 256
    → b < 256
    → bits6 (a % 4 * 16 + b / 16)
      ≡ a / 2 % 2 ∷ a % 2 ∷ b / 128 % 2 ∷ b / 64 % 2 ∷ b / 32 % 2 ∷ b / 16 % 2 ∷ []
bits6-middle_left a b ha hb =
    let e5 : (a % 4 * 16 + b / 16) / 32 % 2 ≡ a / 2 % 2 = omega arith in
    let e4 : (a % 4 * 16 + b / 16) / 16 % 2 ≡ a % 2 = omega arith in
    let e3 : (a % 4 * 16 + b / 16) / 8 % 2 ≡ b / 128 % 2 = omega arith in
    let e2 : (a % 4 * 16 + b / 16) / 4 % 2 ≡ b / 64 % 2 = omega arith in
    let e1 : (a % 4 * 16 + b / 16) / 2 % 2 ≡ b / 32 % 2 = omega arith in
    let e0 : (a % 4 * 16 + b / 16) % 2 ≡ b / 16 % 2 = omega arith in cc

bits6-middle_right :
    (b c : ℕ)
    → b < 256
    → c < 256
    → bits6 (b % 16 * 4 + c / 64)
      ≡ b / 8 % 2 ∷ b / 4 % 2 ∷ b / 2 % 2 ∷ b % 2 ∷ c / 128 % 2 ∷ c / 64 % 2 ∷ []
bits6-middle_right b c hb hc =
    let e5 : (b % 16 * 4 + c / 64) / 32 % 2 ≡ b / 8 % 2 = omega arith in
    let e4 : (b % 16 * 4 + c / 64) / 16 % 2 ≡ b / 4 % 2 = omega arith in
    let e3 : (b % 16 * 4 + c / 64) / 8 % 2 ≡ b / 2 % 2 = omega arith in
    let e2 : (b % 16 * 4 + c / 64) / 4 % 2 ≡ b % 2 = omega arith in
    let e1 : (b % 16 * 4 + c / 64) / 2 % 2 ≡ c / 128 % 2 = omega arith in
    let e0 : (b % 16 * 4 + c / 64) % 2 ≡ c / 64 % 2 = omega arith in cc

bits6-lower_six :
    (c : ℕ)
    → c < 256
    → bits6 (c % 64) ≡ c / 32 % 2 ∷ c / 16 % 2 ∷ c / 8 % 2 ∷ c / 4 % 2 ∷ c / 2 % 2 ∷ c % 2 ∷ []
bits6-lower_six c hc =
    let e5 : (c % 64) / 32 % 2 ≡ c / 32 % 2 = omega arith in
    let e4 : (c % 64) / 16 % 2 ≡ c / 16 % 2 = omega arith in
    let e3 : (c % 64) / 8 % 2 ≡ c / 8 % 2 = omega arith in
    let e2 : (c % 64) / 4 % 2 ≡ c / 4 % 2 = omega arith in
    let e1 : (c % 64) / 2 % 2 ≡ c / 2 % 2 = omega arith in
    let e0 : (c % 64) % 2 ≡ c % 2 = omega arith in cc

bits6-lower_two : (a : ℕ) → a < 256 → bits6 (a % 4 * 16) ≡ a / 2 % 2 ∷ a % 2 ∷ 0 ∷ 0 ∷ 0 ∷ 0 ∷ []
bits6-lower_two a ha =
    let e5 : (a % 4 * 16) / 32 % 2 ≡ a / 2 % 2 = omega arith in
    let e4 : (a % 4 * 16) / 16 % 2 ≡ a % 2 = omega arith in
    let e3 : (a % 4 * 16) / 8 % 2 ≡ 0 = omega arith in
    let e2 : (a % 4 * 16) / 4 % 2 ≡ 0 = omega arith in
    let e1 : (a % 4 * 16) / 2 % 2 ≡ 0 = omega arith in
    let e0 : (a % 4 * 16) % 2 ≡ 0 = omega arith in cc

bits6-lower_four :
    (b : ℕ) → b < 256 → bits6 (b % 16 * 4) ≡ b / 8 % 2 ∷ b / 4 % 2 ∷ b / 2 % 2 ∷ b % 2 ∷ 0 ∷ 0 ∷ []
bits6-lower_four b hb =
    let e5 : (b % 16 * 4) / 32 % 2 ≡ b / 8 % 2 = omega arith in
    let e4 : (b % 16 * 4) / 16 % 2 ≡ b / 4 % 2 = omega arith in
    let e3 : (b % 16 * 4) / 8 % 2 ≡ b / 2 % 2 = omega arith in
    let e2 : (b % 16 * 4) / 4 % 2 ≡ b % 2 = omega arith in
    let e1 : (b % 16 * 4) / 2 % 2 ≡ 0 = omega arith in
    let e0 : (b % 16 * 4) % 2 ≡ 0 = omega arith in cc

alphabet_index-base64_table : (k : ℕ) → k < 64 → alphabet_index (base64_table k) ≡ k
unfolding alphabet_index
alphabet_index-base64_table k h = let e = reverse_table-base64_table k h in ground arith

pub count_pads_le : (cs : List ℕ) → count_pads cs ≤ length cs
unfolding count_pads
count_pads_le [] = omega arith
count_pads_le (c ∷ cs) = let rest = count_pads_le cs in ground arith

pub count_pads-base64_table :
    (k : ℕ) (cs : List ℕ) → k < 64 → count_pads (base64_table k ∷ cs) ≡ count_pads cs
unfolding count_pads
count_pads-base64_table k cs h = let differs = (base64_table_range k h).2 in ground arith

unfoldable pub cells_of : List ℕ → List ℕ
cells_of cs = decode_cells cs (count_pads cs)

cells_of-base64_table :
    (k : ℕ) (cs : List ℕ) → k < 64 → cells_of (base64_table k ∷ cs) ≡ bits6 k ++ cells_of cs
unfolding cells_of decode_cells slots
cells_of-base64_table k cs h =
    let none_more = count_pads-base64_table k cs h in
    let few = count_pads_le cs in
    let longer : suc (length cs) - count_pads cs ≡ suc (length cs - count_pads cs) = omega arith in
    let index = alphabet_index-base64_table k h in
    let cells = fill-bits6 k h in rw (none_more, longer, index, cells) refl

cells_of-pads : (cells_of (pad ∷ pad ∷ []) ≡ []) × (cells_of (pad ∷ []) ≡ []) × (cells_of [] ≡ [])
unfolding cells_of decode_cells count_pads
cells_of-pads = (refl, refl, refl)

-- The cells of `encode`, padding included.
unfoldable pub padded : List ℕ → List ℕ
padded s = slots 8 s ++ replicate (padding_of s) 0

padded-three :
    (a b c : ℕ) (s : List ℕ)
    → a < 256
    → b < 256
    → c < 256
    → padded (a ∷ b ∷ c ∷ s) ≡ bits8 a ++ (bits8 b ++ (bits8 c ++ padded s))
unfolding padded slots
padded-three a b c s ha hb hc =
    rw (padding-three a b c s, fill-bits8 a ha, fill-bits8 b hb, fill-bits8 c hc) refl

padded-short :
    (a b : ℕ)
    → a < 256
    → b < 256
    → (padded [] ≡ [])
      × (padded (a ∷ []) ≡ bits8 a ++ replicate 4 0)
      × (padded (a ∷ b ∷ []) ≡ bits8 a ++ (bits8 b ++ replicate 2 0))
unfolding padded slots padding_of padding_from
padded-short a b ha hb =
    (refl, rw (fill-bits8 a ha) refl, rw (fill-bits8 a ha, fill-bits8 b hb) refl)

cells_step :
    (k : ℕ) (cs six more : List ℕ)
    → k < 64
    → bits6 k ≡ six
    → cells_of cs ≡ more
    → cells_of (base64_table k ∷ cs) ≡ six ++ more
cells_step k cs six more h e f =
    cells_of-base64_table k cs h ∙ ap (λ l. l ++ cells_of cs) e ∙ ap (λ l. six ++ l) f

-- `decode` fills the cells as `encode` has.
pub cells_of-h_base64_encode : (s : List ℕ) → All IsByte s → cells_of (h_base64_encode s) ≡ padded s
unfolding h_base64_encode
cells_of-h_base64_encode [] h =
    cells_of-pads.2 ∙ sym (padded-short 0 0 (omega arith) (omega arith)).0
cells_of-h_base64_encode (a ∷ []) (ha, h) =
    cells_step (a / 4) _ _ _ (omega arith) (bits6-upper_six a ha)
      (cells_step (a % 4 * 16) _ _ _ (omega arith) (bits6-lower_two a ha) cells_of-pads.0)
    ∙ sym (padded-short a 0 ha (omega arith)).1
cells_of-h_base64_encode (a ∷ b ∷ []) (ha, (hb, h)) =
    cells_step (a / 4) _ _ _ (omega arith) (bits6-upper_six a ha) (
      cells_step (a % 4 * 16 + b / 16) _ _ _ (omega arith) (bits6-middle_left a b ha hb)
        (cells_step (b % 16 * 4) _ _ _ (omega arith) (bits6-lower_four b hb) cells_of-pads.1))
    ∙ sym (padded-short a b ha hb).2
cells_of-h_base64_encode (a ∷ b ∷ c ∷ rest) (ha, (hb, (hc, h))) =
    cells_step (a / 4) _ _ _ (omega arith) (bits6-upper_six a ha) (
      cells_step (a % 4 * 16 + b / 16) _ _ _ (omega arith) (bits6-middle_left a b ha hb) (
        cells_step (b % 16 * 4 + c / 64) _ _ _ (omega arith) (bits6-middle_right b c hb hc) (
          cells_step (c % 64) _ _ _ (omega arith) (bits6-lower_six c hc)
            (cells_of-h_base64_encode rest h))))
    ∙ sym (padded-three a b c rest ha hb hc)
