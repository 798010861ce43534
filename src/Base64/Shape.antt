-- ===== src/Base64/Shape.antt =====
-- What `h_base64_encode` writes: its length, and that it is a Base64 text.
use logger_verifier.Base64.Alphabet.{base64_table, base64_table_range, pad}
use logger_verifier.Base64.Encode.{h_base64_encode}
use logger_verifier.Base.{
  ℕ, zero, suc, ◌+◌, ◌-◌, ◌*◌, ◌/◌, ◌%◌, ◌≤◌, ◌<◌, ◌≡◌, refl, sym, subst, List, [], ◌∷◌, ◌++◌, map,
  arith, length, replicate, All, IsByte, NoNul,
}

-- The encoding of `n` bytes has exactly four characters for every three bytes begun, so the buffer
-- that `h_base64_encode` allocates is large enough for it and the NUL behind it.
pub length-h_base64_encode :
    (bs : List ℕ)
    → (length (h_base64_encode bs) ≡ (length bs + 2) / 3 * 4)
      × (length (h_base64_encode bs) + 1 ≤ (length bs + 3 - length bs % 3) * 4 / 3 + 1)
unfolding h_base64_encode
length-h_base64_encode [] = omega arith
length-h_base64_encode (a ∷ []) = omega arith
length-h_base64_encode (a ∷ b ∷ []) = omega arith
length-h_base64_encode (a ∷ b ∷ c ∷ rest) = omega (arith, length-h_base64_encode rest)

-- A Base64 text: characters of the alphabet, then at most two paddings, four characters at a time.
pub record IsText (text : List ℕ) : Type 0 where
  pub digits : List ℕ
  pub pads : ℕ
  pub small : All (λ k. k < 64) digits
  pub parts : text ≡ map base64_table digits ++ replicate pads pad
  pub few : pads ≤ 2
  pub whole : length text % 4 ≡ 0

-- What `h_base64_encode` writes for bytes is a Base64 text, with two paddings where one byte is left
-- behind the groups of three, one where two are left, and else none.
pub h_base64_encode-IsText :
    (bs : List ℕ)
    → All IsByte bs
    → (text : IsText (h_base64_encode bs)) × (text.pads ≡ 2 * length bs % 3)
unfolding h_base64_encode
h_base64_encode-IsText [] h = (
  record { digits = []; pads = 0; small = tt; parts = refl; few = omega arith; whole = refl },
  refl,
)
h_base64_encode-IsText (a ∷ []) (ha, h) = (
  record {
    digits = (a / 4) ∷ (a % 4 * 16) ∷ [];
    pads = 2;
    small = (omega arith, (omega arith, tt));
    parts = refl;
    few = omega arith;
    whole = refl;
  },
  refl,
)
h_base64_encode-IsText (a ∷ b ∷ []) (ha, (hb, h)) = (
  record {
    digits = (a / 4) ∷ (a % 4 * 16 + b / 16) ∷ (b % 16 * 4) ∷ [];
    pads = 1;
    small = (omega arith, (omega arith, (omega arith, tt)));
    parts = refl;
    few = omega arith;
    whole = refl;
  },
  refl,
)
h_base64_encode-IsText (a ∷ b ∷ c ∷ rest) (ha, (hb, (hc, h))) =
    let (t, count) = h_base64_encode-IsText rest h in
    (
      record {
        digits = (a / 4) ∷ (a % 4 * 16 + b / 16) ∷ (b % 16 * 4 + c / 64) ∷ (c % 64) ∷ t.digits;
        pads = t.pads;
        small = (omega arith, (omega arith, (omega arith, (omega arith, t.small))));
        parts = ground (arith, t.parts);
        few = t.few;
        whole = omega (arith, t.whole);
      },
      omega (arith, count),
    )

text-NoNul :
    (digits : List ℕ) (pads : ℕ)
    → All (λ k. k < 64) digits
    → NoNul (map base64_table digits ++ replicate pads pad)
text-NoNul [] zero h = tt
text-NoNul [] (suc pads) h = (ground arith, text-NoNul [] pads h)
text-NoNul (k ∷ digits) pads (hk, h) = ((base64_table_range k hk).0, text-NoNul digits pads h)

pub h_base64_encode-NoNul : (bs : List ℕ) → All IsByte bs → NoNul (h_base64_encode bs)
h_base64_encode-NoNul bs h =
    let (t, count) = h_base64_encode-IsText bs h in
    subst NoNul (sym t.parts) (text-NoNul t.digits t.pads t.small)
