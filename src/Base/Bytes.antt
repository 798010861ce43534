-- ===== src/Base/Bytes.antt =====
-- Byte strings, and the C strings that they hold. A byte is a number; a text is its bytes.
use Prim.Native.Char.{code}
use Prim.Native.Nat.{ℕ, zero, suc, ◌<◌}
use Prim.Native.String.{String}
use mathlib.Core.Bool.{Bool, true, false, ◌&&◌}
use mathlib.Core.List.{List, [], ◌∷◌, ◌++◌}
use mathlib.Core.Logic.{◌≢◌}
use mathlib.Core.Path.{◌≡◌, refl, subst}
use native.Mathlib.Omega.{arith}
use mathlib.Core.Option.{some}
use logger_verifier.Base.Lists.{length, get_elem?}
use logger_verifier.Base.Tests.{◌==◌, if◌then◌else◌}

-- The bytes of an ASCII text.
abbrev pub codes : String → List ℕ
codes String.[] = []
codes (String.◌∷◌ c s) = code c ∷ codes s

abbrev pub All {ℓ κ} : {A : Type ℓ} → (A → Type κ) → List A → Type κ
All P [] = Unit
All P (x ∷ xs) = P x × All P xs

abbrev pub IsByte : ℕ → Type 0
IsByte b = b < 256

-- `std::string::operator==`, `compare() == 0` and `strcmp() == 0` on what the strings hold.
unfoldable pub bytes_eq : List ℕ → List ℕ → Bool
bytes_eq [] [] = true
bytes_eq [] (y ∷ ys) = false
bytes_eq (x ∷ xs) [] = false
bytes_eq (x ∷ xs) (y ∷ ys) = x == y && bytes_eq xs ys

pub bytes_eq_refl : (xs : List ℕ) → bytes_eq xs xs ≡ true
unfolding bytes_eq
bytes_eq_refl [] = refl
bytes_eq_refl (x ∷ xs) = ground (arith, bytes_eq_refl xs)

pub bytes_eq→eq : (xs ys : List ℕ) → bytes_eq xs ys ≡ true → xs ≡ ys
unfolding bytes_eq
bytes_eq→eq [] [] h = refl
bytes_eq→eq [] (y ∷ ys) h = cc
bytes_eq→eq (x ∷ xs) [] h = cc
bytes_eq→eq (x ∷ xs) (y ∷ ys) h = ground (arith, bytes_eq→eq xs ys)

-- The bytes before the first NUL: what `strlen`, `strcpy` and `std::string(char*)` see.
unfoldable pub c_string : List ℕ → List ℕ
c_string [] = []
c_string (c ∷ cs) = let rest = c_string cs in if c == 0 then [] else c ∷ rest

abbrev pub NoNul : List ℕ → Type 0
NoNul = All (λ c. c ≢ 0)

pub c_string-NoNul : (cs rest : List ℕ) → NoNul cs → c_string (cs ++ 0 ∷ rest) ≡ cs
unfolding c_string
c_string-NoNul [] rest h = refl
c_string-NoNul (c ∷ cs) rest h = ground (arith, h.0, c_string-NoNul cs rest h.1)

pub c_string_self : (cs : List ℕ) → NoNul cs → c_string cs ≡ cs
unfolding c_string
c_string_self [] h = refl
c_string_self (c ∷ cs) h = ground (arith, h.0, c_string_self cs h.1)

pub c_string-append : (s rest : List ℕ) → NoNul s → c_string (s ++ rest) ≡ s ++ c_string rest
unfolding c_string
c_string-append [] rest h = refl
c_string-append (c ∷ s) rest (hc, h) = let more = c_string-append s rest h in ground arith

pub All-append {ℓ κ} :
    {A : Type ℓ} (P : A → Type κ) (xs ys : List A) → All P xs → All P ys → All P (xs ++ ys)
All-append P [] ys hx hy = hy
All-append P (x ∷ xs) ys hx hy = (hx.0, All-append P xs ys hx.1 hy)

module _ {ℓ} {A : Type ℓ} where
  pub get_elem?-some : (xs : List A) (i : ℕ) → i < length xs → (x : A) × (get_elem? xs i ≡ some x)
  get_elem?-some [] i h = absurd (omega arith)
  get_elem?-some (x ∷ xs) zero h = (x, refl)
  get_elem?-some (x ∷ xs) (suc i) h = get_elem?-some xs i (omega arith)

  pub All-get_elem? {κ} :
      (P : A → Type κ) (xs : List A) (i : ℕ) (x : A) → All P xs → get_elem? xs i ≡ some x → P x
  All-get_elem? P [] i x h e = absurd cc
  All-get_elem? P (y ∷ ys) zero x h e = let q : y ≡ x = cc in subst P q h.0
  All-get_elem? P (y ∷ ys) (suc i) x h e = All-get_elem? P ys i x h.1 e
