-- ===== src/Base/Bits.antt =====
-- Shifts and masks in the form that the arithmetic tactics read, and tables for the masks that are
-- not all ones: every value of a byte is checked by evaluation.
use logger_verifier.Base.Tests.{◌==◌}
use Prim.Native.Nat.{ℕ, zero, suc, ◌+◌, ◌*◌, ◌/◌, ◌%◌, ◌^◌, ◌<◌, bit_and, bit_or, bit_xor}
use mathlib.Core.Bool.{Bool, true, ◌&&◌}
use mathlib.Core.Path.{◌≡◌, refl}
use native.Mathlib.Omega.{arith}

-- `x >> k`
abbrev pub shr : ℕ → ℕ → ℕ
shr x k = x / 2 ^ k

-- `x << k`, before it is cut to a width.
abbrev pub shl : ℕ → ℕ → ℕ
shl x k = x * 2 ^ k

-- `x & (2^k - 1)`
abbrev pub low_bits : ℕ → ℕ → ℕ
low_bits x k = x % 2 ^ k

module _ (f g : ℕ → ℕ) where
  table : ℕ → Bool
  table zero = true
  table (suc n) = f n == g n && table n

  table_sound : (n : ℕ) → table n ≡ true → (x : ℕ) → x < n → f x ≡ g x
  unfolding table
  table_sound zero h x lt = elim lt [ ]
  table_sound (suc n) h x lt = ground (arith, table_sound n (ground arith) x)

pub and_0xfc : (x : ℕ) → x < 256 → bit_and x 0xfc ≡ x / 4 * 4
unfolding table
and_0xfc = table_sound _ _ 256 refl

pub and_0xf0 : (x : ℕ) → x < 256 → bit_and x 0xf0 ≡ x / 16 * 16
unfolding table
and_0xf0 = table_sound _ _ 256 refl

pub and_0xc0 : (x : ℕ) → x < 256 → bit_and x 0xc0 ≡ x / 64 * 64
unfolding table
and_0xc0 = table_sound _ _ 256 refl

pub and_0x30 : (x : ℕ) → x < 256 → bit_and x 0x30 ≡ x / 16 % 4 * 16
unfolding table
and_0x30 = table_sound _ _ 256 refl

pub and_0x3c : (x : ℕ) → x < 256 → bit_and x 0x3c ≡ x / 4 % 16 * 4
unfolding table
and_0x3c = table_sound _ _ 256 refl

-- The two halves of `x`, for `|` of bits that do not overlap.
or_2_table : (x : ℕ) → x < 256 → bit_or (x / 4 * 4) (x % 4) ≡ x
unfolding table
or_2_table = table_sound _ _ 256 refl

or_4_table : (x : ℕ) → x < 256 → bit_or (x / 16 * 16) (x % 16) ≡ x
unfolding table
or_4_table = table_sound _ _ 256 refl

or_6_table : (x : ℕ) → x < 256 → bit_or (x / 64 * 64) (x % 64) ≡ x
unfolding table
or_6_table = table_sound _ _ 256 refl

pub or_2 : (a b : ℕ) → a < 64 → b < 4 → bit_or (a * 4) b ≡ a * 4 + b
or_2 a b ha hb =
    let x : (a * 4 + b) / 4 * 4 ≡ a * 4 = omega arith in
    let y : (a * 4 + b) % 4 ≡ b = omega arith in rw (x, y) at (or_2_table (a * 4 + b) (omega arith))

pub or_4 : (a b : ℕ) → a < 16 → b < 16 → bit_or (a * 16) b ≡ a * 16 + b
or_4 a b ha hb =
    let x : (a * 16 + b) / 16 * 16 ≡ a * 16 = omega arith in
    let y : (a * 16 + b) % 16 ≡ b = omega arith in
    rw (x, y) at (or_4_table (a * 16 + b) (omega arith))

pub or_6 : (a b : ℕ) → a < 4 → b < 64 → bit_or (a * 64) b ≡ a * 64 + b
or_6 a b ha hb =
    let x : (a * 64 + b) / 64 * 64 ≡ a * 64 = omega arith in
    let y : (a * 64 + b) % 64 ≡ b = omega arith in
    rw (x, y) at (or_6_table (a * 64 + b) (omega arith))

-- `x ^ 0x5f` on a byte is its own inverse, and a byte.
pub xor_0x5f_twice : (x : ℕ) → x < 256 → bit_xor (bit_xor x 0x5f) 0x5f ≡ x
unfolding table
xor_0x5f_twice = table_sound _ _ 256 refl

-- It is 0 at 0x5f only.
pub xor_0x5f_zero : (x : ℕ) → x < 256 → bit_xor x 0x5f ≡ 0 → x ≡ 0x5f
xor_0x5f_zero x h e = ground (arith, xor_0x5f_twice x h, e)
