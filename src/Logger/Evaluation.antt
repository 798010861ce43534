-- ===== src/Logger/Evaluation.antt =====
-- `test_share_req` and `performance_evaluation` of Logger/Logger.cpp.
use logger_verifier.Base.Run.{Run, pure, fault, ◌>>=◌}
use logger_verifier.Logger.Upload.{Memory, send_bytes, gen_shares}
use logger_verifier.Server.Service.{recv_bytes}
use logger_verifier.Wire.Network.{Network}
use logger_verifier.Wire.Packet.{
  server, char_data, test_share_req_cmd, client_make_packet, header_bytes, read_header,
}
use logger_verifier.Wire.Transfer.{IoPort, client_recv_binary}
use logger_verifier.Base.{
  ℕ, zero, suc, ◌+◌, ◌*◌, ◌^◌, ◌≤◌, ◌≡◌, refl, Bool, true, false, ◌||◌, none, some, List, [], ◌∷◌,
  ◌++◌, arith, ltb, ◌==◌, if◌then◌else◌, length, bytes_eq, bytes_eq_refl, c_string,
}

-- `shares[i].compare(str) == 0` for some `i`.
unfoldable pub has_share : List (List ℕ) → List ℕ → Bool
has_share [] str = false
has_share (s ∷ ss) str = bytes_eq s str || has_share ss str

-- The loop `while (shares.size() != threshold)`: the shares in their order and `request_time`.
-- `request` is `test_share_req`. `none`: out of fuel, or a request that fails.
unfoldable pub collect_distinct :
    {W : Type 0} → Run W (List ℕ) → ℕ → ℕ → List (List ℕ) → ℕ → Run W (List (List ℕ) × ℕ)
unfolding has_share
collect_distinct request zero threshold shares times = fault
collect_distinct request (suc f) threshold shares times = elim (length shares == threshold) [
  | true ↦ pure (shares, times)
  | false ↦ do
    str ← request
    elim (has_share shares str) [
      | true ↦ collect_distinct request f threshold shares (times + 1)
      | false ↦ collect_distinct request f threshold (shares ++ str ∷ []) (times + 1)
    ]
]

module _ (N : Network) (M : Memory) where
  -- The header of the answer is taken by one `recv` into a cleared buffer. Its size is an `int`, of
  -- which one more is allocated. Whatever `recv_binary` stores ends at a NUL.
  unfoldable pub test_share_req : IoPort → Run N.World (List ℕ)
  test_share_req p = do
    _ ← send_bytes N M p (header_bytes (client_make_packet server test_share_req_cmd char_data 0))
    λ w.
        let (r, w1) = N.recv p.s 8 w in
        let size = (read_header (recv_bytes r)).data_size in
        if ltb (size + 1) (2 ^ 31)
        then (elim (client_recv_binary N p size w1) [
          | none ↦ none
          | some m ↦ some (c_string m.bytes, m.world)
        ])
        else none

  -- The inner loop at `num_of_share`, from `threshold` on, for at most `left` rounds: the entries
  -- of `request_times`. `threshold < num_of_share * 0.7` in whole numbers.
  unfoldable pub evaluate_thresholds : IoPort → ℕ → ℕ → ℕ → ℕ → Run N.World (List ((ℕ × ℕ) × ℕ))
  unfolding gen_shares collect_distinct test_share_req
  evaluate_thresholds p fuel zero n t = pure []
  evaluate_thresholds p fuel (suc left) n t = elim (ltb (10 * t) (7 * n)) [
    | false ↦ pure []
    | true ↦ do
      _ ← gen_shares N M p n t
      r ← collect_distinct (test_share_req p) fuel t [] 0
      rest ← evaluate_thresholds p fuel left n (t + 1)
      pure (((n, t), r.1) ∷ rest)
  ]

  -- The outer loop: `left` is `11 - num_of_share`. The threshold stays below 7, so 11 rounds are
  -- enough.
  unfoldable pub evaluate_shares : IoPort → ℕ → ℕ → ℕ → Run N.World (List ((ℕ × ℕ) × ℕ))
  unfolding evaluate_thresholds
  evaluate_shares p fuel zero n = pure []
  evaluate_shares p fuel (suc left) n = do
    here ← evaluate_thresholds p fuel 11 n 2
    rest ← evaluate_shares p fuel left (n + 1)
    pure (here ++ rest)

  unfoldable pub performance_evaluation : IoPort → ℕ → Run N.World (List ((ℕ × ℕ) × ℕ))
  unfolding evaluate_shares
  performance_evaluation p fuel = evaluate_shares p fuel 8 3

-- A server that answers every request with the same text, as one whose connection is lost does
-- with the empty text.
module _ {W : Type 0} (request : Run W (List ℕ)) (text : List ℕ) where
  again :
      (fuel threshold times : ℕ) (w : W)
      → 2 ≤ threshold
      → ((w : W) → (w' : W) × (request w ≡ some (text, w')))
      → collect_distinct request fuel threshold (text ∷ []) times w ≡ none
  unfolding collect_distinct has_share
  again zero threshold times w h e = refl
  again (suc f) threshold times w h e =
      let (w', q) = e w in
      let rest = again f threshold (times + 1) w' h e in
      let known = bytes_eq_refl text in ground arith

  -- Where every request returns the same text and the threshold is 2 or more, the loop never ends.
  pub collect_distinct_never_ends :
      (fuel threshold : ℕ) (w : W)
      → 2 ≤ threshold
      → ((w : W) → (w' : W) × (request w ≡ some (text, w')))
      → collect_distinct request fuel threshold [] 0 w ≡ none
  unfolding collect_distinct has_share
  collect_distinct_never_ends zero threshold w h e = refl
  collect_distinct_never_ends (suc f) threshold w h e =
      let (w', q) = e w in let rest = again f threshold 1 w' h e in ground arith
