-- ===== src/Logger/Pictures.antt =====
-- `cv::Mat` as far as the logger reads it, and the text of a picture that is hashed.
use logger_verifier.Base.Decimal.{decimal}
use logger_verifier.Base.{
  ℕ, zero, suc, ◌+◌, ◌*◌, ◌≤◌, ◌<◌, ◌≡◌, refl, sym, ap, ◌∙◌, ◌⊎◌, inl, inr, List, [], ◌∷◌, ◌++◌,
  append_assoc, arith, ◌==◌, if◌then◌else◌, length, get_or, take, drop, All,
}

-- `bytes` is the data, row after row.
pub record Mat : Type 0 where
  pub rows : ℕ
  pub cols : ℕ
  pub channels : ℕ
  pub bytes : List ℕ

-- `temp.at<uchar>(i, j)`.
abbrev pub at : Mat → ℕ → ℕ → ℕ
at m i j = get_or m.bytes (i * (m.cols * m.channels) + j) 0

-- The inner loop of `make_hash`, from the column `j` on, `n` columns being left.
unfoldable pub row_text : Mat → ℕ → ℕ → ℕ → List ℕ
row_text m i j zero = []
row_text m i j (suc n) = decimal (at m i j) ++ row_text m i (suc j) n

-- The outer loop, from the row `i` on, `n` rows being left.
unfoldable pub rows_text : Mat → ℕ → ℕ → List ℕ
unfolding row_text
rows_text m i zero = []
rows_text m i (suc n) = row_text m i 0 m.cols ++ rows_text m (suc i) n

-- `mat_data` of `make_hash`, in Logger/Logger.cpp and in Verifier/Verifier.cpp.
unfoldable pub mat_data : Mat → List ℕ
unfolding rows_text
mat_data m = rows_text m 0 m.rows

-- One channel, and as many bytes as the size says: what `cv::Canny` gives.
pub record IsGray (m : Mat) : Type 0 where
  pub one_channel : m.channels ≡ 1
  pub full : length m.bytes ≡ m.rows * m.cols

-- The decimals of the bytes, one after the other.
abbrev pub decimals : List ℕ → List ℕ
decimals [] = []
decimals (b ∷ bs) = decimal b ++ decimals bs

decimals-append : (xs ys : List ℕ) → decimals (xs ++ ys) ≡ decimals xs ++ decimals ys
decimals-append [] ys = refl
decimals-append (x ∷ xs) ys =
    ap (λ l. decimal x ++ l) (decimals-append xs ys)
    ∙ sym (append_assoc (decimal x) (decimals xs) (decimals ys))

-- `n` elements from `k` on.
abbrev segment : ℕ → ℕ → List ℕ → List ℕ
segment k n xs = take n (drop k xs)

segment-suc :
    (k n : ℕ) (xs : List ℕ)
    → k < length xs
    → segment k (suc n) xs ≡ get_or xs k 0 ∷ segment (suc k) n xs
segment-suc k n [] h = ground arith
segment-suc zero n (x ∷ xs) h = refl
segment-suc (suc k) n (x ∷ xs) h = segment-suc k n xs (omega arith)

take_nil : (n : ℕ) → Path (List ℕ) (take n []) []
take_nil zero = refl
take_nil (suc n) = refl

drop_nil : (n : ℕ) → Path (List ℕ) (drop n []) []
drop_nil zero = refl
drop_nil (suc n) = refl

take_add : (m n : ℕ) (ys : List ℕ) → take m ys ++ take n (drop m ys) ≡ take (m + n) ys
take_add zero n ys = ap (λ k. take k ys) (omega arith)
take_add (suc m) n [] = take_nil n ∙ sym (take_nil (suc m + n))
take_add (suc m) n (y ∷ ys) =
    let e : suc (m + n) ≡ suc m + n = omega arith in
    ap (λ l. y ∷ l) (take_add m n ys) ∙ ap (λ k. take k (y ∷ ys)) e

drop_add : (k m : ℕ) (xs : List ℕ) → drop (k + m) xs ≡ drop m (drop k xs)
drop_add zero m xs = ap (λ k. drop k xs) (omega arith)
drop_add (suc k) m [] = drop_nil (suc k + m) ∙ sym (drop_nil m)
drop_add (suc k) m (x ∷ xs) =
    let e : suc k + m ≡ suc (k + m) = omega arith in ap (λ k. drop k (x ∷ xs)) e ∙ drop_add k m xs

segment-append :
    (k m n : ℕ) (xs : List ℕ) → segment k m xs ++ segment (k + m) n xs ≡ segment k (m + n) xs
segment-append k m n xs =
    ap (λ l. segment k m xs ++ take n l) (drop_add k m xs) ∙ take_add m n (drop k xs)

row_text-segment :
    (m : Mat) (i j n : ℕ)
    → m.channels ≡ 1
    → i * m.cols + j + n ≤ length m.bytes
    → row_text m i j n ≡ decimals (segment (i * m.cols + j) n m.bytes)
unfolding row_text
row_text-segment m i j zero one h = refl
row_text-segment m i j (suc n) one h =
    let rest = row_text-segment m i (suc j) n one (omega (arith, h)) in
    let here : at m i j ≡ get_or m.bytes (i * m.cols + j) 0 =
      ap (λ c. get_or m.bytes (i * c + j) 0) (ground arith) in
    let next : i * m.cols + suc j ≡ suc (i * m.cols + j) = omega arith in
    rw (here, rest, next, segment-suc (i * m.cols + j) n m.bytes (omega (arith, h))) refl

rows_text-segment :
    (m : Mat) (i n : ℕ)
    → m.channels ≡ 1
    → (i + n) * m.cols ≤ length m.bytes
    → rows_text m i n ≡ decimals (segment (i * m.cols) (n * m.cols) m.bytes)
unfolding rows_text
rows_text-segment m i zero one h =
    let e : 0 ≡ 0 * m.cols = grind arith in ap (λ k. decimals (segment (i * m.cols) k m.bytes)) e
rows_text-segment m i (suc n) one h =
    let row = row_text-segment m i 0 m.cols one (grind arith) in
    let rest = rows_text-segment m (suc i) n one (grind arith) in
    let start : i * m.cols + 0 ≡ i * m.cols = omega arith in
    let next : suc i * m.cols ≡ i * m.cols + m.cols = grind arith in
    let count : m.cols + n * m.cols ≡ suc n * m.cols = grind arith in
    rw
      (
        row,
        rest,
        start,
        next,
        ← decimals-append (segment (i * m.cols) m.cols m.bytes)
            (segment (i * m.cols + m.cols) (n * m.cols) m.bytes),
        segment-append (i * m.cols) m.cols (n * m.cols) m.bytes,
        count,
      )
      refl

segment_all : (xs : List ℕ) → segment 0 (length xs) xs ≡ xs
segment_all [] = refl
segment_all (x ∷ xs) = ap (λ l. x ∷ l) (segment_all xs)

-- The text that is hashed for a one-channel picture is the decimals of its bytes, row after row,
-- without anything between them.
pub mat_data-decimals : (m : Mat) → IsGray m → mat_data m ≡ decimals m.bytes
unfolding mat_data
mat_data-decimals m g =
    let first : 0 * m.cols ≡ 0 = grind arith in
    rows_text-segment m 0 m.rows g.one_channel (grind (arith, g.full))
    ∙ ap (λ k. decimals (segment k (m.rows * m.cols) m.bytes)) first
    ∙ ap (λ k. decimals (segment 0 k m.bytes)) (sym g.full)
    ∙ ap decimals (segment_all m.bytes)

-- The bytes of an edge picture: 0, or 255 for an edge.
abbrev pub IsEdge : ℕ → Type 0
IsEdge b = (b ≡ 0) ⊎ (b ≡ 255)

decimal_edge :
    (b : ℕ) (rest : List ℕ)
    → IsEdge b
    → decimal b ++ rest ≡ (if b == 0 then 48 ∷ rest else 50 ∷ 53 ∷ 53 ∷ rest)
unfolding decimal
decimal_edge b rest (inl e) = rw e refl
decimal_edge b rest (inr e) = rw e refl

decimals-injective :
    (xs ys : List ℕ) → All IsEdge xs → All IsEdge ys → decimals xs ≡ decimals ys → xs ≡ ys
decimals-injective [] [] hx hy e = refl
decimals-injective [] (y ∷ ys) hx hy e = let d = decimal_edge y (decimals ys) hy.0 in ground arith
decimals-injective (x ∷ xs) [] hx hy e = let d = decimal_edge x (decimals xs) hx.0 in ground arith
decimals-injective (x ∷ xs) (y ∷ ys) hx hy e =
    let dx = decimal_edge x (decimals xs) hx.0 in
    let dy = decimal_edge y (decimals ys) hy.0 in ground (arith, decimals-injective xs ys, hx, hy)

-- Two edge pictures, one-channel pictures of bytes 0 and 255, give the same text to hash only if
-- they have the same bytes.
pub mat_data-injective :
    (a b : Mat)
    → IsGray a
    → IsGray b
    → All IsEdge a.bytes
    → All IsEdge b.bytes
    → mat_data a ≡ mat_data b
    → a.bytes ≡ b.bytes
mat_data-injective a b ga gb ea eb e =
    decimals-injective a.bytes b.bytes ea eb
      (sym (mat_data-decimals a ga) ∙ e ∙ mat_data-decimals b gb)
