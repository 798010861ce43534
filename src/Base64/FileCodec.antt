-- ===== src/Base64/FileCodec.antt =====
-- `encode` and `decode` of test_dir/en_de_file.c, which keep a text as cells of one bit each.
use logger_verifier.Base64.Alphabet.{base64_table, reverse_table, pad}
use logger_verifier.Base.{
  ℕ, zero, suc, ◌+◌, ◌-◌, ◌*◌, ◌/◌, ◌%◌, ◌^◌, ◌||◌, Option, none, some, List, [], ◌∷◌, ◌++◌, map,
  ltb, leb, ◌==◌, if◌then◌else◌, length, get_or, take, drop, replicate, c_string,
}

-- The inner `while (1)`: the binary digits of `quotien` into a slot of `width` cells, from its
-- right end; the cells that are not reached stay 0.
unfoldable pub fill : ℕ → ℕ → List ℕ → List ℕ
fill zero quotien cells = cells
fill (suc width) quotien cells =
    let rest = fill width (quotien / 2) (quotien % 2 ∷ cells) in
    if ltb 1 quotien then rest else replicate width 0 ++ quotien % 2 ∷ cells

-- The slots of a text, one after the other.
unfoldable pub slots : ℕ → List ℕ → List ℕ
unfolding fill
slots width [] = []
slots width (q ∷ qs) = fill width q [] ++ slots width qs

-- `powe`, where the cell is set.
unfoldable pub cell : ℕ → ℕ → ℕ
cell power bit = if bit == 1 then 2 ^ power else 0

-- `_6bit` of each group. The source goes from the last group to the first, and fills its result
-- from the end.
unfoldable pub sixes : List ℕ → List ℕ
unfolding cell
sixes (a ∷ b ∷ c ∷ d ∷ e ∷ f ∷ rest) =
    (cell 0 f + cell 1 e + cell 2 d + cell 3 c + cell 4 b + cell 5 a) ∷ sixes rest
sixes _ = []

-- The loop that counts up to a multiple of six. Six rounds are enough.
unfoldable pub padding_from : ℕ → ℕ → ℕ → ℕ
padding_from zero n padding = padding
padding_from (suc f) n padding =
    let rest = padding_from f (n + 1) (padding + 1) in if n % 6 == 0 then padding else rest

unfoldable pub equals_signs : ℕ → List ℕ
equals_signs padding =
    if padding == 2 then pad ∷ [] else if padding == 4 then pad ∷ pad ∷ [] else []

-- `padding`
unfoldable pub padding_of : List ℕ → ℕ
unfolding padding_from
padding_of string = padding_from 6 (length string * 8) 0

-- The characters and the padding that are written.
unfoldable pub encoded_text : List ℕ → ℕ → List ℕ
unfolding slots sixes equals_signs
encoded_text string padding =
    map base64_table (sixes (slots 8 string ++ replicate padding 0)) ++ equals_signs padding

-- `encode` of a C string; `usable n` is how many bytes the allocator gives for `n`. The NUL is
-- written behind the bytes that were asked for.
unfoldable pub file_encode : (ℕ → ℕ) → List ℕ → Option (List ℕ)
file_encode usable string =
    let padding = padding_of string in
    let size = (length string * 8 + padding) / 6 + padding / 2 in
    if ltb size (usable size) then some (encoded_text string padding) else none

unfoldable pub count_pads : List ℕ → ℕ
count_pads [] = 0
count_pads (c ∷ cs) = (if c == pad then 1 else 0) + count_pads cs

-- The loop over `character_alphabet`: 0 for a character that it has not.
unfoldable pub alphabet_index : ℕ → ℕ
alphabet_index c = elim (reverse_table c) [ none ↦ 0 | some j ↦ j ]

-- `_8bit` of each group. A group at the end may reach behind the cells that are filled.
unfoldable pub eights : ℕ → List ℕ → List ℕ
unfolding cell
eights zero cells = []
eights (suc groups) cells =
    (cell 0 (get_or cells 7 0)
      + cell 1 (get_or cells 6 0)
      + cell 2 (get_or cells 5 0)
      + cell 3 (get_or cells 4 0)
      + cell 4 (get_or cells 3 0)
      + cell 5 (get_or cells 2 0)
      + cell 6 (get_or cells 1 0)
      + cell 7 (get_or cells 0 0))
    ∷ eights groups (drop 8 cells)

-- The cells of the characters in front of the padding.
unfoldable pub decode_cells : List ℕ → ℕ → List ℕ
unfolding slots alphabet_index
decode_cells string padding = slots 6 (map alphabet_index (take (length string - padding) string))

-- `decode` of a C string: the result as a C string. `junk` is what the byte holds that the source
-- never writes, between the text and the NUL, which is behind the bytes that were asked for.
unfoldable pub file_decode : (ℕ → ℕ) → ℕ → List ℕ → Option (List ℕ)
file_decode usable junk string =
    let padding = count_pads string in
    let filled = (length string - padding) * 6 in
    let n = filled - padding * 2 in
    let bytes = eights ((n + 7) / 8) (decode_cells string padding) in
    if ltb filled (padding * 2) || ltb (n * 8) filled || leb (usable (n / 8 + 1)) (n / 8 + 1)
    then none
    else if n % 8 == 0
    then some (c_string (bytes ++ junk ∷ []))
    else some (c_string bytes)
