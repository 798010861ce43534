-- ===== src/Base64/TestRounds.antt =====
-- The rounds of `t_base64_decode` and of `b_base64_decode`, by what the table has.
use logger_verifier.Base.Bits.{and_0x30, and_0x3c}
use logger_verifier.Base64.Alphabet.{
  reverse_table, reverse_table_range, is_base64, is_some, all_below, all_below_sound, same,
  same_bool,
}
use logger_verifier.Base64.Decode.{b_decode_next, b_decode_loop}
use logger_verifier.Base64.TestDecode.{find_value, char_array_3, t_finish, t_takes, t_base64_decode}
use logger_verifier.Base.{
  ℕ, ◌+◌, ◌*◌, ◌/◌, ◌%◌, ◌^◌, ◌<◌, bit_and, ◌≡◌, refl, ap, ◌∙◌, true, false, none, some, List, [],
  ◌∷◌, ◌++◌, arith, length, take,
}

-- A byte is taken exactly when the table has a value for it.
t_takes-reverse_table : (c : ℕ) → c < 256 → t_takes c ≡ is_some (reverse_table c)
unfolding all_below t_takes is_base64 reverse_table
t_takes-reverse_table c h =
    same_bool _ _ (all_below_sound 256 (λ j. same (t_takes j) (is_some (reverse_table j))) refl c h)

-- The three bytes of a group, of the values of its characters.
pub byte_0 : ℕ → ℕ → ℕ
byte_0 w x = w * 4 + x / 16

pub byte_1 : ℕ → ℕ → ℕ
byte_1 x y = x % 16 * 16 + y / 4

pub byte_2 : ℕ → ℕ → ℕ
byte_2 y z = y % 4 * 64 + z

char_array_3-take_1 :
    (w x y z : ℕ) → w < 64 → x < 64 → take 1 (char_array_3 w x y z) ≡ byte_0 w x ∷ []
unfolding char_array_3 byte_0
char_array_3-take_1 w x y z hw hx =
    let e : bit_and x 0x30 ≡ x / 16 % 4 * 16 = and_0x30 x (omega arith) in
    let e' : (w * 4 + x / 16 % 4 * 16 / 16) % 256 ≡ w * 4 + x / 16 = omega arith in rw (e, e')

char_array_3-take_2 :
    (w x y z : ℕ)
    → w < 64
    → x < 64
    → y < 64
    → take 2 (char_array_3 w x y z) ≡ byte_0 w x ∷ byte_1 x y ∷ []
unfolding char_array_3 byte_0 byte_1
char_array_3-take_2 w x y z hw hx hy =
    let e : bit_and x 0x30 ≡ x / 16 % 4 * 16 = and_0x30 x (omega arith) in
    let e' : (w * 4 + x / 16 % 4 * 16 / 16) % 256 ≡ w * 4 + x / 16 = omega arith in
    let f : bit_and y 0x3c ≡ y / 4 % 16 * 4 = and_0x3c y (omega arith) in
    let f' : (x % 16 * 16 + y / 4 % 16 * 4 / 4) % 256 ≡ x % 16 * 16 + y / 4 = omega arith in
    rw (e, e', f, f')

pub char_array_3_lem :
    (w x y z : ℕ)
    → w < 64
    → x < 64
    → y < 64
    → z < 64
    → char_array_3 w x y z ≡ byte_0 w x ∷ byte_1 x y ∷ byte_2 y z ∷ []
unfolding char_array_3 byte_0 byte_1 byte_2
char_array_3_lem w x y z hw hx hy hz =
    let e : bit_and x 0x30 ≡ x / 16 % 4 * 16 = and_0x30 x (omega arith) in
    let e' : (w * 4 + x / 16 % 4 * 16 / 16) % 256 ≡ w * 4 + x / 16 = omega arith in
    let f : bit_and y 0x3c ≡ y / 4 % 16 * 4 = and_0x3c y (omega arith) in
    let f' : (x % 16 * 16 + y / 4 % 16 * 4 / 4) % 256 ≡ x % 16 * 16 + y / 4 = omega arith in
    let g : (y % 4 * 64 + z) % 256 ≡ y % 4 * 64 + z = omega arith in rw (e, e', f, f', g)

-- The rounds of the other decoder, from 0, 6, 4 and 2 pending bits.
pub next : ℕ → ℕ → ℕ
next val k = val * 64 % 2 ^ 32 + k

pub round :
    (c k val bits : ℕ) (cs : List ℕ)
    → reverse_table c ≡ some k
    → b_decode_loop (c ∷ cs) val bits
      ≡ (b_decode_next (next val k) (bits + 6)).0
        ++ b_decode_loop cs (next val k) (b_decode_next (next val k) (bits + 6)).1
unfolding b_decode_loop next
round c k val bits cs e = rw (e, b_decode_loop)

pub round_0 :
    (c k val : ℕ) (cs : List ℕ)
    → reverse_table c ≡ some k
    → b_decode_loop (c ∷ cs) val 0 ≡ b_decode_loop cs (next val k) 6
unfolding b_decode_next next
round_0 c k val cs e = round c k val 0 cs e

pub round_6 :
    (c j k val : ℕ) (cs : List ℕ)
    → reverse_table c ≡ some k
    → j < 64
    → k < 64
    → val % 64 ≡ j
    → b_decode_loop (c ∷ cs) val 6 ≡ byte_0 j k ∷ b_decode_loop cs (next val k) 4
unfolding b_decode_next next byte_0
round_6 c j k val cs e hj hk h =
    let b : (val * 64 % 2 ^ 32 + k) / 16 % 256 ≡ j * 4 + k / 16 = omega arith in
    rw (round c k val 6 cs e, b)

pub round_4 :
    (c j k val : ℕ) (cs : List ℕ)
    → reverse_table c ≡ some k
    → j < 64
    → k < 64
    → val % 16 ≡ j % 16
    → b_decode_loop (c ∷ cs) val 4 ≡ byte_1 j k ∷ b_decode_loop cs (next val k) 2
unfolding b_decode_next next byte_1
round_4 c j k val cs e hj hk h =
    let b : (val * 64 % 2 ^ 32 + k) / 4 % 256 ≡ j % 16 * 16 + k / 4 = omega arith in
    rw (round c k val 4 cs e, b)

pub round_2 :
    (c j k val : ℕ) (cs : List ℕ)
    → reverse_table c ≡ some k
    → j < 64
    → k < 64
    → val % 4 ≡ j % 4
    → b_decode_loop (c ∷ cs) val 2 ≡ byte_2 j k ∷ b_decode_loop cs (next val k) 0
unfolding b_decode_next next byte_2
round_2 c j k val cs e hj hk h =
    let b : (val * 64 % 2 ^ 32 + k) / 1 % 256 ≡ j % 4 * 64 + k = omega arith in
    rw (round c k val 2 cs e, b)

-- It stops at a character without a value.
pub round_stops :
    (c val bits : ℕ) (cs : List ℕ) → reverse_table c ≡ none → b_decode_loop (c ∷ cs) val bits ≡ []
unfolding b_decode_loop
round_stops c val bits cs e = rw (e, b_decode_loop)

-- A round of this decoder, by what the table has for its character.
pub takes : (c k : ℕ) → c < 256 → reverse_table c ≡ some k → t_takes c ≡ true
takes c k h e = t_takes-reverse_table c h ∙ ap is_some e

pub stops : (c : ℕ) → c < 256 → reverse_table c ≡ none → t_takes c ≡ false
stops c h e = t_takes-reverse_table c h ∙ ap is_some e

pub t_stops :
    (c : ℕ) (pending cs : List ℕ)
    → length pending < 4
    → t_takes c ≡ false
    → t_base64_decode pending (c ∷ cs) ≡ t_finish pending
unfolding t_base64_decode
t_stops c [] cs h e = rw (e, t_base64_decode)
t_stops c (x ∷ []) cs h e = rw (e, t_base64_decode)
t_stops c (x ∷ y ∷ []) cs h e = rw (e, t_base64_decode)
t_stops c (x ∷ y ∷ z ∷ more) cs h e = rw (e, t_base64_decode)

pub find_value-some : (c k : ℕ) → reverse_table c ≡ some k → find_value c ≡ k
unfolding find_value
find_value-some c k e = rw (e, find_value)

pub t_finish_0 : t_finish [] ≡ []
unfolding t_finish
t_finish_0 = refl

pub t_finish_1 : (a : ℕ) → t_finish (a ∷ []) ≡ []
unfolding t_finish
t_finish_1 a = refl

pub t_finish_2 :
    (a b ka kb : ℕ)
    → reverse_table a ≡ some ka
    → reverse_table b ≡ some kb
    → t_finish (a ∷ b ∷ []) ≡ byte_0 ka kb ∷ []
unfolding t_finish
t_finish_2 a b ka kb ea eb =
    rw (find_value-some a ka ea, find_value-some b kb eb)
      (char_array_3-take_1 ka kb (find_value 0) (find_value 0) (reverse_table_range a ka ea)
        (reverse_table_range b kb eb))

pub t_finish_3 :
    (a b c ka kb kc : ℕ)
    → reverse_table a ≡ some ka
    → reverse_table b ≡ some kb
    → reverse_table c ≡ some kc
    → t_finish (a ∷ b ∷ c ∷ []) ≡ byte_0 ka kb ∷ byte_1 kb kc ∷ []
unfolding t_finish
t_finish_3 a b c ka kb kc ea eb ec =
    rw (find_value-some a ka ea, find_value-some b kb eb, find_value-some c kc ec)
      (char_array_3-take_2 ka kb kc (find_value 0) (reverse_table_range a ka ea)
        (reverse_table_range b kb eb) (reverse_table_range c kc ec))

-- The fourth character of a group writes its three bytes.
pub t_group :
    (a b d c j k l m : ℕ) (cs : List ℕ)
    → c < 256
    → reverse_table a ≡ some j
    → reverse_table b ≡ some k
    → reverse_table d ≡ some l
    → reverse_table c ≡ some m
    → t_base64_decode (a ∷ b ∷ d ∷ []) (c ∷ cs)
      ≡ byte_0 j k ∷ byte_1 k l ∷ byte_2 l m ∷ t_base64_decode [] cs
unfolding t_base64_decode
t_group a b d c j k l m cs h ea eb ed ec = rw (
  takes c m h ec,
  t_base64_decode,
  find_value-some a j ea,
  find_value-some b k eb,
  find_value-some d l ed,
  find_value-some c m ec,
  char_array_3_lem j k l m (reverse_table_range a j ea) (reverse_table_range b k eb)
      (reverse_table_range d l ed) (reverse_table_range c m ec),
)

pub t_fills :
    (c k : ℕ) (pending cs : List ℕ)
    → length pending < 3
    → c < 256
    → reverse_table c ≡ some k
    → t_base64_decode pending (c ∷ cs) ≡ t_base64_decode (pending ++ c ∷ []) cs
unfolding t_base64_decode
t_fills c k [] cs h hc e = rw (takes c k hc e, t_base64_decode)
t_fills c k (x ∷ []) cs h hc e = rw (takes c k hc e, t_base64_decode)
t_fills c k (x ∷ y ∷ []) cs h hc e = rw (takes c k hc e, t_base64_decode)
t_fills c k (x ∷ y ∷ z ∷ more) cs h hc e = absurd (omega arith)

pub next_64 : (val k : ℕ) → k < 64 → next val k % 64 ≡ k
unfolding next
next_64 val k h = omega arith

pub next_16 : (val k : ℕ) → next val k % 16 ≡ k % 16
unfolding next
next_16 val k = omega arith

pub next_4 : (val k : ℕ) → next val k % 4 ≡ k % 4
unfolding next
next_4 val k = omega arith
