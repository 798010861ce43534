-- ===== src/Base64/Alphabet.antt =====
-- `base64_table`, the alphabet that all the codecs share, and the tables that invert it.
use logger_verifier.Base.{
  ℕ, zero, suc, ◌+◌, ◌<◌, ◌≡◌, refl, ◌≢◌, inl, inr, Bool, true, false, not, ◌&&◌, ◌||◌, Option,
  none, some, List, [], ◌∷◌, arith, ltb, leb, ◌==◌, if◌then◌else◌, Bool-cases, length, get_or,
  codes,
}

pub alphabet : List ℕ
alphabet = codes "ABCDEFGHIJKLMNOPQRSTUVWXYZabcdefghijklmnopqrstuvwxyz0123456789+/"

-- `base64_pad`
abbrev pub pad : ℕ
pad = b'='

-- `base64_table[i]`, with the NUL that ends the table.
unfoldable pub base64_table : ℕ → ℕ
unfolding alphabet
base64_table i = get_or alphabet i 0

-- The first index of a character at or after `k`.
index_from : ℕ → List ℕ → ℕ → Option ℕ
index_from k [] c = none
index_from k (x ∷ xs) c = let rest = index_from (k + 1) xs c in if x == c then some k else rest

-- `T[c]`, and `reverse_table[c]` where `c` is no NUL: the index of a character, `none` for -1.
unfoldable pub reverse_table : ℕ → Option ℕ
unfolding alphabet index_from
reverse_table = index_from 0 alphabet

-- Every value below 64 passes the test.
unfoldable pub all_below : ℕ → (ℕ → Bool) → Bool
all_below zero p = true
all_below (suc n) p = p n && all_below n p

pub all_below_sound : (n : ℕ) (p : ℕ → Bool) → all_below n p ≡ true → (x : ℕ) → x < n → p x ≡ true
unfolding all_below
all_below_sound zero p h x lt = absurd (omega arith)
all_below_sound (suc n) p h x lt = ground (arith, all_below_sound n p (ground arith) x)

abbrev pub same : Bool → Bool → Bool
same true b = b
same false b = not b

pub same_bool : (a b : Bool) → same a b ≡ true → a ≡ b
same_bool true true h = refl
same_bool true false h = cc
same_bool false true h = cc
same_bool false false h = refl

abbrev is_some_of : ℕ → Option ℕ → Bool
is_some_of i none = false
is_some_of i (some j) = i == j

is_some_of→eq : (i : ℕ) (o : Option ℕ) → is_some_of i o ≡ true → o ≡ some i
is_some_of→eq i none h = cc
is_some_of→eq i (some j) h = ground arith

-- The tables are inverse to each other on the 64 values.
pub reverse_table-base64_table : (i : ℕ) → i < 64 → reverse_table (base64_table i) ≡ some i
unfolding all_below reverse_table base64_table
reverse_table-base64_table i h =
    is_some_of→eq i _
      (all_below_sound 64 (λ j. is_some_of j (reverse_table (base64_table j))) refl i h)

-- A character of the alphabet is no NUL, no space and no padding, and a byte.
pub base64_table_range :
    (i : ℕ)
    → i < 64
    → (base64_table i ≢ 0) × (base64_table i ≢ 32) × (base64_table i ≢ pad) × (base64_table i < 128)
unfolding all_below base64_table
base64_table_range i h = ground (
  arith,
  all_below_sound 64
      (λ j.
        not (base64_table j == 0)
        && not (base64_table j == 32)
        && not (base64_table j == pad)
        && ltb (base64_table j) 128)
      refl i h,
)

index_from_range : (j : ℕ) (xs : List ℕ) (c k : ℕ) → index_from j xs c ≡ some k → k < j + length xs
unfolding index_from
index_from_range j [] c k e = cc
index_from_range j (x ∷ xs) c k e = elim (Bool-cases (x == c)) [
  | inl here ↦ ground arith
  | inr later ↦ omega (arith, index_from_range (j + 1) xs c k (ground arith))
]

-- Every value that the table gives is below 64.
pub reverse_table_range : (c k : ℕ) → reverse_table c ≡ some k → k < 64
unfolding reverse_table alphabet
reverse_table_range c k e = index_from_range 0 alphabet c k e

-- `is_base64` of helloworld/test_bs64.cc: `isalnum`, `+` and `/`.
unfoldable pub is_base64 : ℕ → Bool
is_base64 c =
    (leb 48 c && leb c 57)
    || (leb 65 c && leb c 90)
    || (leb 97 c && leb c 122)
    || c == 43
    || c == 47

abbrev pub is_some : Option ℕ → Bool
is_some none = false
is_some (some k) = true

-- It takes the characters of the alphabet.
pub is_base64-reverse_table : (c : ℕ) → c < 256 → is_base64 c ≡ is_some (reverse_table c)
unfolding all_below is_base64 reverse_table
is_base64-reverse_table c h =
    same_bool _ _
      (all_below_sound 256 (λ j. same (is_base64 j) (is_some (reverse_table j))) refl c h)
