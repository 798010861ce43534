-- ===== src/Base/Decimal.antt =====
-- Decimal numerals: what `std::to_string`, `operator<<` and `%d` write, and `atoi`. An `int` is a
-- ℤ; `atoi` is read on numerals that fit an `int`.
use Prim.Native.Nat.{ℕ, zero, suc, ◌+◌, ◌*◌, ◌-◌, ◌/◌, ◌%◌, ◌<◌, ◌≤◌}
use mathlib.Core.Bool.{Bool, ◌&&◌, ◌||◌}
use mathlib.Core.List.{List, [], ◌∷◌, ◌++◌}
use mathlib.Core.Path.{◌≡◌, ap, ◌∙◌}
use native.Mathlib.Omega.{arith}
use logger_verifier.Base.Tests.{ltb, leb, ◌==◌, if◌then◌else◌}

-- `negsuc n` is -(n + 1).
pub data ℤ : Type 0 where
  pos : ℕ → ℤ
  negsuc : ℕ → ℤ

-- At most `f` digits.
decimal_fuel : ℕ → ℕ → List ℕ
decimal_fuel zero n = []
decimal_fuel (suc f) n =
    let rest = decimal_fuel f (n / 10) in
    if ltb n 10 then (n + 48) ∷ [] else rest ++ (n % 10 + 48) ∷ []

-- A number `n` has at most `n + 1` digits.
unfoldable pub decimal : ℕ → List ℕ
unfolding decimal_fuel
decimal n = decimal_fuel (suc n) n

unfoldable pub decimal_int : ℤ → List ℕ
unfolding decimal
decimal_int (pos n) = decimal n
decimal_int (negsuc n) = b'-' ∷ decimal (suc n)

abbrev pub is_digit : ℕ → Bool
is_digit c = leb 48 c && leb c 57

-- The digits up to the first other character.
digits_from : ℕ → List ℕ → ℕ
digits_from acc [] = acc
digits_from acc (c ∷ cs) =
    let rest = digits_from (acc * 10 + (c - 48)) cs in if is_digit c then rest else acc

abbrev negate : ℕ → ℤ
negate zero = pos 0
negate (suc n) = negsuc n

signed_from : List ℕ → ℤ
unfolding digits_from
signed_from [] = pos 0
signed_from (c ∷ cs) =
    if c == b'-'
    then negate (digits_from 0 cs)
    else if c == b'+'
    then pos (digits_from 0 cs)
    else pos (digits_from 0 (c ∷ cs))

-- White space, then a sign, then digits.
unfoldable pub atoi : List ℕ → ℤ
unfolding signed_from
atoi [] = pos 0
atoi (c ∷ cs) =
    let rest = atoi cs in if c == 32 || (leb 9 c && leb c 13) then rest else signed_from (c ∷ cs)

decimal_fuel_one : (f n : ℕ) → 0 < f → n < 10 → decimal_fuel f n ≡ (n + 48) ∷ []
unfolding decimal_fuel
decimal_fuel_one zero n hf hn = ground arith
decimal_fuel_one (suc f) n hf hn = ground arith

decimal_fuel_more :
    (f n : ℕ) → 10 ≤ n → decimal_fuel (suc f) n ≡ decimal_fuel f (n / 10) ++ (n % 10 + 48) ∷ []
unfolding decimal_fuel
decimal_fuel_more f n h = ground arith

pub decimal_one : (n : ℕ) → n < 10 → decimal n ≡ (n + 48) ∷ []
unfolding decimal
decimal_one n h = decimal_fuel_one (suc n) n (omega arith) h

pub decimal_two : (n : ℕ) → 10 ≤ n → n < 100 → decimal n ≡ (n / 10 + 48) ∷ (n % 10 + 48) ∷ []
unfolding decimal
decimal_two n l h =
    decimal_fuel_more n n l
    ∙ ap (λ t. t ++ (n % 10 + 48) ∷ []) (decimal_fuel_one n (n / 10) (omega arith) (omega arith))

hundreds : (n : ℕ) → n / 10 / 10 ≡ n / 100
hundreds n = omega arith

pub decimal_three :
    (n : ℕ)
    → 100 ≤ n
    → n < 1000
    → decimal n ≡ (n / 100 + 48) ∷ (n / 10 % 10 + 48) ∷ (n % 10 + 48) ∷ []
unfolding decimal
decimal_three (suc zero) l h = ground arith
decimal_three zero l h = ground arith
decimal_three (suc (suc n)) l h =
    decimal_fuel_more (suc (suc n)) (suc (suc n)) (omega arith)
    ∙ ap (λ t. t ++ (suc (suc n) % 10 + 48) ∷ [])
        (decimal_fuel_more (suc n) (suc (suc n) / 10) (omega arith)
          ∙ ap (λ t. t ++ (suc (suc n) / 10 % 10 + 48) ∷ [])
              (decimal_fuel_one (suc n) (suc (suc n) / 10 / 10) (omega arith) (omega arith)))
    ∙ ap (λ q. (q + 48) ∷ (suc (suc n) / 10 % 10 + 48) ∷ (suc (suc n) % 10 + 48) ∷ [])
        (hundreds (suc (suc n)))

-- Two and three digits read back.
pub atoi-one : (a : ℕ) → a < 10 → atoi ((a + 48) ∷ []) ≡ pos a
unfolding atoi signed_from digits_from
atoi-one a ha = ground arith

pub atoi-two : (a b : ℕ) → a < 10 → b < 10 → atoi ((a + 48) ∷ (b + 48) ∷ []) ≡ pos (10 * a + b)
unfolding atoi signed_from digits_from
atoi-two a b ha hb = ground arith

pub atoi-three :
    (a b c : ℕ)
    → a < 10
    → b < 10
    → c < 10
    → atoi ((a + 48) ∷ (b + 48) ∷ (c + 48) ∷ []) ≡ pos (100 * a + 10 * b + c)
unfolding atoi signed_from digits_from
atoi-three a b c ha hb hc = ground arith
