-- ===== src/Base64/TestAgree.antt =====
-- `base64_decode` of helloworld/test_bs64.cc decodes what `b_base64_decode` does.
use logger_verifier.Base64.Alphabet.{
  base64_table, base64_table_range, reverse_table, reverse_table_range,
}
use logger_verifier.Base64.Encode.{h_base64_encode, t_base64_encode}
use logger_verifier.Base64.Agree.{
  b_base64_encode-eq-h_base64_encode, t_base64_encode-eq-h_base64_encode,
}
use logger_verifier.Base64.RoundTrip.{b_base64_decode-encode}
use logger_verifier.Base64.Decode.{b_decode_loop, b_base64_decode}
use logger_verifier.Base64.TestDecode.{t_takes, t_base64_decode}
use logger_verifier.Base64.TestRounds.{
  byte_0, byte_1, byte_2, next, round_0, round_6, round_4, round_2, round_stops, stops, t_stops,
  t_finish_0, t_finish_1, t_finish_2, t_finish_3, t_group, t_fills, next_64, next_16, next_4,
}
use logger_verifier.Base.{
  ℕ, ◌+◌, ◌*◌, ◌/◌, ◌%◌, ◌<◌, ◌≡◌, sym, ap, ◌∙◌, inl, inr, false, none, some, List, [], ◌∷◌, arith,
  Option-cases, All, IsByte,
}

-- The four lengths that `pending` has, and the pending bits of the other decoder at each.
record Agrees (cs : List ℕ) : Type 0 where
  at_0 : (val : ℕ) → t_base64_decode [] cs ≡ b_decode_loop cs val 0
  at_1 :
      (a j val : ℕ)
      → reverse_table a ≡ some j
      → val % 64 ≡ j
      → t_base64_decode (a ∷ []) cs ≡ b_decode_loop cs val 6
  at_2 :
      (a b j k val : ℕ)
      → reverse_table a ≡ some j
      → reverse_table b ≡ some k
      → val % 16 ≡ k % 16
      → t_base64_decode (a ∷ b ∷ []) cs ≡ byte_0 j k ∷ b_decode_loop cs val 4
  at_3 :
      (a b d j k l val : ℕ)
      → reverse_table a ≡ some j
      → reverse_table b ≡ some k
      → reverse_table d ≡ some l
      → val % 4 ≡ l % 4
      → t_base64_decode (a ∷ b ∷ d ∷ []) cs ≡ byte_0 j k ∷ byte_1 k l ∷ b_decode_loop cs val 2

nothing_left : Agrees []
unfolding t_base64_decode b_decode_loop
nothing_left = record {
  at_0 = λ val. t_finish_0;
  at_1 = λ a j val e h. t_finish_1 a;
  at_2 = λ a b j k val e e' h. t_finish_2 a b j k e e';
  at_3 = λ a b d j k l val e e' e'' h. t_finish_3 a b d j k l e e' e'';
}

-- Both stop at a character without a value.
both_stop : (c : ℕ) (cs : List ℕ) → c < 256 → reverse_table c ≡ none → Agrees (c ∷ cs)
both_stop c cs h e =
    let no : t_takes c ≡ false = stops c h e in
    record {
      at_0 = λ val. t_stops c [] cs (omega arith) no ∙ t_finish_0 ∙ sym (round_stops c val 0 cs e);
      at_1 = λ a j val ea hv.
          t_stops c (a ∷ []) cs (omega arith) no ∙ t_finish_1 a ∙ sym (round_stops c val 6 cs e);
      at_2 = λ a b j k val ea eb hv.
          t_stops c (a ∷ b ∷ []) cs (omega arith) no
          ∙ t_finish_2 a b j k ea eb
          ∙ ap (λ r. byte_0 j k ∷ r) (sym (round_stops c val 4 cs e));
      at_3 = λ a b d j k l val ea eb ed hv.
          t_stops c (a ∷ b ∷ d ∷ []) cs (omega arith) no
          ∙ t_finish_3 a b d j k l ea eb ed
          ∙ ap (λ r. byte_0 j k ∷ byte_1 k l ∷ r) (sym (round_stops c val 2 cs e));
    }

both_go_on :
    (c m : ℕ) (cs : List ℕ) → c < 256 → reverse_table c ≡ some m → Agrees cs → Agrees (c ∷ cs)
both_go_on c m cs h e ih =
    let hm : m < 64 = reverse_table_range c m e in
    record {
      at_0 = λ val.
          t_fills c m [] cs (omega arith) h e
          ∙ ih.at_1 c m (next val m) e (next_64 val m hm)
          ∙ sym (round_0 c m val cs e);
      at_1 = λ a j val ea hv.
          t_fills c m (a ∷ []) cs (omega arith) h e
          ∙ ih.at_2 a c j m (next val m) ea e (next_16 val m)
          ∙ sym (round_6 c j m val cs e (reverse_table_range a j ea) hm hv);
      at_2 = λ a b j k val ea eb hv.
          t_fills c m (a ∷ b ∷ []) cs (omega arith) h e
          ∙ ih.at_3 a b c j k m (next val m) ea eb e (next_4 val m)
          ∙ ap (λ r. byte_0 j k ∷ r)
              (sym (round_4 c k m val cs e (reverse_table_range b k eb) hm hv));
      at_3 = λ a b d j k l val ea eb ed hv.
          t_group a b d c j k l m cs h ea eb ed e
          ∙ ap (λ r. byte_0 j k ∷ byte_1 k l ∷ byte_2 l m ∷ r) (ih.at_0 (next val m))
          ∙ ap (λ r. byte_0 j k ∷ byte_1 k l ∷ r)
              (sym (round_2 c l m val cs e (reverse_table_range d l ed) hm hv));
    }

agrees : (s : List ℕ) → All IsByte s → Agrees s
agrees [] h = nothing_left
agrees (c ∷ cs) h = elim (Option-cases (reverse_table c)) [
  | inl e ↦ both_stop c cs h.0 e
  | inr (m, e) ↦ both_go_on c m cs h.0 e (agrees cs h.1)
]

-- `base64_decode` of the test program decodes every byte string to what `b_base64_decode` does,
-- padded, cut off or with other characters in it.
pub t_base64_decode-eq-b_base64_decode :
    (s : List ℕ) → All IsByte s → t_base64_decode [] s ≡ b_base64_decode s
unfolding b_base64_decode
t_base64_decode-eq-b_base64_decode s h = (agrees s h).at_0 0

is_byte : (i : ℕ) → i < 64 → base64_table i < 256
is_byte i h = omega (arith, base64_table_range i h)

h_base64_encode-IsByte : (bs : List ℕ) → All IsByte bs → All IsByte (h_base64_encode bs)
unfolding h_base64_encode
h_base64_encode-IsByte [] h = tt
h_base64_encode-IsByte (a ∷ []) h = (
  is_byte (a / 4) (omega arith),
  (is_byte (a % 4 * 16) (omega arith), (omega arith, (omega arith, (tt)))),
)
h_base64_encode-IsByte (a ∷ b ∷ []) h = (
  is_byte (a / 4) (omega arith),
  (
    is_byte (a % 4 * 16 + b / 16) (omega arith),
    (is_byte (b % 16 * 4) (omega arith), (omega arith, (tt))),
  ),
)
h_base64_encode-IsByte (a ∷ b ∷ c ∷ rest) h = (
  is_byte (a / 4) (omega arith),
  (
    is_byte (a % 4 * 16 + b / 16) (omega arith),
    (
      is_byte (b % 16 * 4 + c / 64) (omega arith),
      (is_byte (c % 64) (omega arith), (h_base64_encode-IsByte rest h.1.1.1)),
    ),
  ),
)

-- So it gives back what the encoder of the test program was given.
pub t_base64_decode-encode :
    (bs : List ℕ) → All IsByte bs → t_base64_decode [] (t_base64_encode [] bs) ≡ bs
t_base64_decode-encode bs h =
    ap (t_base64_decode []) (t_base64_encode-eq-h_base64_encode bs h)
    ∙ t_base64_decode-eq-b_base64_decode (h_base64_encode bs) (h_base64_encode-IsByte bs h)
    ∙ ap b_base64_decode (sym (b_base64_encode-eq-h_base64_encode bs h))
    ∙ b_base64_decode-encode bs h
