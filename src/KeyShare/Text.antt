-- ===== src/KeyShare/Text.antt =====
-- The helpers of helloworld/util.h and the tokens of helloworld/greeter_server.cc.
use logger_verifier.Base.{
  ℕ, bit_xor, Bool, true, false, ◌&&◌, ◌||◌, Option, none, some, List, [], ◌∷◌, ◌++◌, map, ltb, leb,
  ◌==◌, if◌then◌else◌, length, c_string,
}

-- `XOR`, with `room` bytes at `dst`: the bytes before the NUL that it writes at the end, or none
-- where it writes past them.
unfoldable pub xor : ℕ → List ℕ → Option (List ℕ)
unfolding c_string
xor room src =
    let text = c_string src in
    if ltb (length text) room then some (map (λ c. bit_xor c 0x5f) text) else none

-- `[\s|,]`
unfoldable pub is_separator : ℕ → Bool
is_separator c = (leb 9 c && leb c 13) || c == 32 || c == b'|' || c == b','

-- The token that ends, unless it is empty.
unfoldable pub keep_token : List ℕ → List (List ℕ)
keep_token [] = []
keep_token (c ∷ cs) = (c ∷ cs) ∷ []

unfoldable pub tokens_from : List ℕ → List ℕ → List (List ℕ)
tokens_from token [] = keep_token token
tokens_from token (c ∷ cs) = elim (is_separator c) [
  | true ↦ keep_token token ++ tokens_from [] cs
  | false ↦ tokens_from (token ++ c ∷ []) cs
]

-- `tokenize` at the expression `[\s|,]+`: what stands between the separators and is not empty.
unfoldable pub tokenize : List ℕ → List (List ℕ)
unfolding tokens_from
tokenize = tokens_from []

-- Two strings compared byte by byte, as `std::less` does.
pub data Order : Type 0 where
  before same behind : Order

unfoldable pub compare : List ℕ → List ℕ → Order
compare [] [] = same
compare [] (y ∷ ys) = before
compare (x ∷ xs) [] = behind
compare (x ∷ xs) (y ∷ ys) =
    let rest = compare xs ys in if ltb x y then before else if ltb y x then behind else rest

-- `shareSet.insert`: a `std::set` as the list of its elements in their order.
unfoldable pub insert : List ℕ → List (List ℕ) → List (List ℕ)
unfolding compare
insert x [] = x ∷ []
insert x (y ∷ ys) =
    let rest = insert x ys in
    elim (compare x y) [ before ↦ x ∷ y ∷ ys | same ↦ y ∷ ys | behind ↦ y ∷ rest ]

-- `write_share`: the text that is written.
unfoldable pub write_share : List (List ℕ) → List ℕ
write_share [] = []
write_share (s ∷ ss) = s ++ 10 ∷ write_share ss

-- The loop of `read_share`, with the part of the line that `getline` has taken.
unfoldable pub read_lines : List ℕ → List ℕ → List ℕ
read_lines [] [] = []
read_lines (c ∷ line) [] = (c ∷ line) ++ 10 ∷ []
read_lines line (c ∷ cs) = elim (c == 10) [
  | true ↦ line ++ 10 ∷ read_lines [] cs
  | false ↦ read_lines (line ++ c ∷ []) cs
]

-- `read_share`: a file that cannot be opened has no line.
unfoldable pub read_share : Option (List ℕ) → List ℕ
unfolding read_lines
read_share none = []
read_share (some content) = read_lines [] content
