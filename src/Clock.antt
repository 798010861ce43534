-- ===== src/Clock.antt =====
-- `getCID` of Server/server.cpp and Client/client.cpp.
mod Tests
use logger_verifier.Base.Decimal.{decimal, decimal_one, decimal_two, decimal_three}
use logger_verifier.Base.{
  ℕ, ◌+◌, ◌-◌, ◌*◌, ◌/◌, ◌%◌, ◌≤◌, ◌<◌, ◌≡◌, refl, sym, ◌∙◌, inl, inr, List, [], ◌∷◌, ◌++◌,
  append_assoc, arith, ltb, ◌==◌, if◌then◌else◌, Bool-cases, length, take, length-append, take_all,
  codes,
}

-- `if (s_CID.length() == n) s_CID.append(text)`.
abbrev append_at : ℕ → List ℕ → List ℕ → List ℕ
append_at n text s = if length s == n then s ++ text else s

-- `stamp` is what `strftime` gives for the format "%Y-%m-%d_%T.", `millitm` the milliseconds.
unfoldable pub get_cid : List ℕ → ℕ → List ℕ
unfolding decimal
get_cid stamp millitm =
    append_at 21 (codes "00") (append_at 22 (codes "0") (take 23 (stamp ++ decimal millitm)))

take_stamp :
    (stamp text : List ℕ)
    → length stamp ≡ 20
    → length text ≤ 3
    → take 23 (stamp ++ text) ≡ stamp ++ text
take_stamp stamp text h hl =
    take_all 23 (stamp ++ text) (omega (arith, length-append stamp text, h))

-- The CID for one, two and three digits.
get_cid_one :
    (stamp : List ℕ) (n : ℕ)
    → length stamp ≡ 20
    → n < 10
    → get_cid stamp n ≡ stamp ++ (n + 48) ∷ 48 ∷ 48 ∷ []
unfolding get_cid
get_cid_one stamp n h hn =
    let text : List ℕ = (n + 48) ∷ [] in
    ground (
      arith,
      decimal_one n hn,
      take_stamp stamp text h,
      length-append stamp text,
      append_assoc stamp text (codes "00"),
    )

get_cid_two :
    (stamp : List ℕ) (n : ℕ)
    → length stamp ≡ 20
    → 10 ≤ n
    → n < 100
    → get_cid stamp n ≡ stamp ++ (n / 10 + 48) ∷ (n % 10 + 48) ∷ 48 ∷ []
unfolding get_cid
get_cid_two stamp n h l hn =
    let text : List ℕ = (n / 10 + 48) ∷ (n % 10 + 48) ∷ [] in
    ground (
      arith,
      decimal_two n l hn,
      take_stamp stamp text h,
      length-append stamp text,
      length-append (stamp ++ text) (codes "0"),
      append_assoc stamp text (codes "0"),
    )

get_cid_three :
    (stamp : List ℕ) (n : ℕ)
    → length stamp ≡ 20
    → 100 ≤ n
    → n < 1000
    → get_cid stamp n ≡ stamp ++ (n / 100 + 48) ∷ (n / 10 % 10 + 48) ∷ (n % 10 + 48) ∷ []
unfolding get_cid
get_cid_three stamp n h l hn =
    let text : List ℕ = (n / 100 + 48) ∷ (n / 10 % 10 + 48) ∷ (n % 10 + 48) ∷ [] in
    ground (arith, decimal_three n l hn, take_stamp stamp text h, length-append stamp text)

-- For a stamp of 20 characters and fewer than 1000 milliseconds the CID has exactly 23 characters,
-- the size that the server has built in for it.
pub length-get_cid :
    (stamp : List ℕ) (n : ℕ) → length stamp ≡ 20 → n < 1000 → length (get_cid stamp n) ≡ 23
length-get_cid stamp n h hn = elim (Bool-cases (ltb n 10)) [
  | inl one ↦
      let e = get_cid_one stamp n h (ground arith) in
      rw e (omega (arith, length-append stamp ((n + 48) ∷ 48 ∷ 48 ∷ []), h))
  | inr more ↦ elim (Bool-cases (ltb n 100)) [
    | inl two ↦
        let e = get_cid_two stamp n h (ground arith) (ground arith) in
        rw e (omega (arith, length-append stamp ((n / 10 + 48) ∷ (n % 10 + 48) ∷ 48 ∷ []), h))
    | inr three ↦
        let e = get_cid_three stamp n h (ground arith) hn in
        rw e (
          omega (
            arith,
            length-append stamp ((n / 100 + 48) ∷ (n / 10 % 10 + 48) ∷ (n % 10 + 48) ∷ []),
            h,
          ))
  ]
]

-- Three different moments of a second get one CID: n, 10 n and 100 n milliseconds, for n from 1 to
-- 9.
pub get_cid-collides :
    (stamp : List ℕ) (n : ℕ)
    → length stamp ≡ 20
    → 1 ≤ n
    → n < 10
    → (get_cid stamp n ≡ get_cid stamp (10 * n)) × (get_cid stamp n ≡ get_cid stamp (100 * n))
get_cid-collides stamp n h l hn =
    let digit : 10 * n / 10 ≡ n = omega arith in
    let zero_end : 10 * n % 10 ≡ 0 = omega arith in
    let first : 100 * n / 100 ≡ n = omega arith in
    let middle : 100 * n / 10 % 10 ≡ 0 = omega arith in
    let last : 100 * n % 10 ≡ 0 = omega arith in
    (
      get_cid_one stamp n h hn
          ∙ sym (
              get_cid_two stamp (10 * n) h (omega arith) (omega arith) ∙ rw (digit, zero_end) refl),
      get_cid_one stamp n h hn
          ∙ sym (
              get_cid_three stamp (100 * n) h (omega arith) (omega arith)
              ∙ rw (first, middle, last) refl),
    )
