-- ===== src/Session/Shares.antt =====
-- The logger's request for shares, and what the server makes of it.
use logger_verifier.Base.Decimal.{
  pos, decimal, atoi, atoi-two, atoi-three, decimal_one, decimal_two,
}
use logger_verifier.Database.Scripted.{scripted}
use logger_verifier.Server.Handlers.{tenths, units, with_data, test_gen_shares}
use logger_verifier.Server.Shares.{lines, test_share_gen}
use logger_verifier.Server.State.{Environment, State, buffer_text}
use logger_verifier.Server.Arrivals.{receive-pipe}
use logger_verifier.Wire.Packet.{HeaderPacket}
use logger_verifier.Wire.Pipe.{pipe}
use logger_verifier.Wire.Transfer.{IoPort}
use logger_verifier.Base.{
  ℕ, ◌+◌, ◌*◌, ◌/◌, ◌%◌, ◌≤◌, ◌<◌, ◌≡◌, ap, ◌∙◌, inl, inr, true, some, List, [], ◌++◌, append-nil,
  arith, ltb, Bool-cases, length, codes, c_string, NoNul, c_string_self,
}

-- What `gen_shares` sends behind its header.
abbrev pub request_text : ℕ → ℕ → List ℕ
request_text n t = decimal n ++ decimal t

digits-NoNul : (n t : ℕ) → n < 100 → t < 10 → NoNul (request_text n t)
digits-NoNul n t hn ht = elim (Bool-cases (ltb n 10)) [
  | inl one ↦ rw (decimal_one n (ground arith), decimal_one t ht) (ground arith, (ground arith, tt))
  | inr two ↦
      rw (decimal_two n (ground arith) hn, decimal_one t ht)
        (ground arith, (ground arith, (ground arith, tt)))
]

atoi-request : (n t : ℕ) → n < 100 → t < 10 → atoi (request_text n t) ≡ pos (10 * n + t)
atoi-request n t hn ht = elim (Bool-cases (ltb n 10)) [
  | inl one ↦ rw (decimal_one n (ground arith), decimal_one t ht) (atoi-two n t (ground arith) ht)
  | inr two ↦
      rw (decimal_two n (ground arith) hn, decimal_one t ht)
        (atoi-three (n / 10) (n % 10) t (omega arith) (omega arith) ht ∙ ap pos (omega arith))
]

length-request : (n t : ℕ) → n < 100 → t < 10 → length (request_text n t) ≤ 3
length-request n t hn ht = elim (Bool-cases (ltb n 10)) [
  | inl one ↦ rw (decimal_one n (ground arith), decimal_one t ht) (ground arith)
  | inr two ↦ rw (decimal_two n (ground arith) hn, decimal_one t ht) (ground arith)
]

module _ (E : Environment) where
  -- When the text that `gen_shares` sends for fewer than 100 shares and a threshold of one digit
  -- has arrived with its size in the header, a NUL stands behind the buffer, and the file
  -- `symmetric_key` can be opened, `test_gen_shares` makes shares for exactly these two numbers: it
  -- returns 1, and `test_shares` holds the lines that the library gives for them.
  pub shares_generated_as_requested :
      (p : IoPort) (h : HeaderPacket) (n t : ℕ) (rest : List ℕ) (st : State pipe scripted E)
      → n < 100
      → t < 10
      → E.after ≡ []
      → h.data_size ≡ length (request_text n t)
      → st.net.incoming ≡ request_text n t ++ rest
      → 0 < st.net.chunk
      → E.can_create (codes "symmetric_key") ≡ true
      → test_gen_shares pipe scripted E h p st
        ≡ some (
          pos 1,
          record st {
            net = record st.net { incoming = rest };
            test_shares = lines (E.generate_share_strings (E.aes_key E.password) (pos n) (pos t));
          },
        )
  unfolding test_gen_shares test_share_gen tenths units with_data
  shares_generated_as_requested p h n t rest st hn ht after size arrived hc can =
      let got =
        receive-pipe E p (request_text n t) rest st arrived hc
          (omega (arith, length-request n t hn ht)) in
      let text : buffer_text pipe scripted E (request_text n t) ≡ request_text n t =
        ap (λ a. c_string (request_text n t ++ a)) after
        ∙ ap c_string (append-nil (request_text n t))
        ∙ c_string_self (request_text n t) (digits-NoNul n t hn ht) in
      let number = ap atoi text ∙ atoi-request n t hn ht in
      let a : (10 * n + t) / 10 ≡ n = omega arith in
      let b : (10 * n + t) % 10 ≡ t = omega arith in ground arith
