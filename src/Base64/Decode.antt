-- ===== src/Base64/Decode.antt =====
-- The decoders `h_base64_decode` and `b_base64_decode`.
use logger_verifier.Base.Bits.{shr, shl, low_bits}
use logger_verifier.Base64.Alphabet.{reverse_table, pad}
use logger_verifier.Base.{
  ℕ, zero, suc, ◌+◌, ◌-◌, ◌%◌, ◌^◌, bit_or, Option, none, some, List, [], ◌∷◌, ◌++◌, leb, ◌==◌,
  if◌then◌else◌,
}

-- The variables of `h_base64_decode`: `done` is `result[0] … result[j - 1]`, `cur` is `result[j]`.
pub record Decoding : Type 0 where
  pub i : ℕ
  pub done : List ℕ
  pub cur : ℕ

-- The `switch (i % 4)` and `i++`, for a character of value `ch`. After case 3 `result[j]` is not
-- yet written; case 0 writes it.
switch : ℕ → ℕ → Decoding → Decoding
switch zero ch d = record d { i = d.i + 1; cur = shl ch 2 % 256 }
switch (suc zero) ch d = record {
  i = d.i + 1;
  done = d.done ++ bit_or d.cur (shr ch 4) ∷ [];
  cur = shl (low_bits ch 4) 4;
}
switch (suc (suc zero)) ch d = record {
  i = d.i + 1;
  done = d.done ++ bit_or d.cur (shr ch 2) ∷ [];
  cur = shl (low_bits ch 2) 6;
}
switch _ ch d = record { i = d.i + 1; done = d.done ++ bit_or d.cur ch ∷ []; cur = 0 }

unfoldable pub h_step : ℕ → Decoding → Decoding
unfolding switch
h_step ch d = switch (d.i % 4) ch d

-- A character without a value is passed over.
unfoldable pub advance : Option ℕ → Decoding → Decoding
unfolding h_step
advance none d = d
advance (some ch) d = h_step ch d

-- What follows the loop when it ended at the padding: NULL after whole groups or one character.
unfoldable pub mop_up : ℕ → List ℕ → Option (List ℕ)
mop_up zero done = none
mop_up (suc zero) done = none
mop_up _ done = some done

-- The loop; the list ends where the C string has its NUL. A space counts as a plus.
unfoldable pub h_decode_loop : List ℕ → Decoding → Option (List ℕ)
unfolding advance mop_up
h_decode_loop [] d = some d.done
h_decode_loop (c ∷ cs) d =
    let rest = h_decode_loop cs (advance (reverse_table (if c == 32 then b'+' else c)) d) in
    if c == 0 then some d.done else if c == pad then mop_up (d.i % 4) d.done else rest

-- `h_base64_decode`: the first `*ret_length` bytes of the result, or NULL.
unfoldable pub h_base64_decode : List ℕ → Option (List ℕ)
unfolding h_decode_loop
h_base64_decode str = h_decode_loop str (record { i = 0; done = []; cur = 0 })

-- `b_base64_decode` keeps its pending bits in the `int` `val`, here 32 bits, and counts them in
-- `valb`, here `bits`, which is `valb + 8`. The first character without a value ends the loop.
unfoldable pub b_decode_next : ℕ → ℕ → List ℕ × ℕ
b_decode_next val bits =
    if leb 8 bits then (low_bits (shr val (bits - 8)) 8 ∷ [], bits - 8) else ([], bits)

unfoldable pub b_decode_loop : List ℕ → ℕ → ℕ → List ℕ
unfolding b_decode_next
b_decode_loop [] val bits = []
b_decode_loop (c ∷ cs) val bits = elim (reverse_table c) [
  | none ↦ []
  | some k ↦
      let val' = shl val 6 % 2 ^ 32 + k in
      let (out, bits') = b_decode_next val' (bits + 6) in out ++ b_decode_loop cs val' bits'
]

unfoldable pub b_base64_decode : List ℕ → List ℕ
unfolding b_decode_loop
b_base64_decode input = b_decode_loop input 0 0
