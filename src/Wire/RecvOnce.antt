-- ===== src/Wire/RecvOnce.antt =====
-- One round of `recv_binary`: a `__recv` that brings bytes, or not.
use logger_verifier.Wire.Network.{
  Network, IsStream, Selected, select_failed, timed_out, ready, Received, recv_failed, received,
}
use logger_verifier.Wire.Transfer.{
  IoPort, RecvResult, recv_error, recv_timeout, stored, positive, recv_once, recv_round,
  recv_result, after_select,
}
use logger_verifier.Base.{
  ℕ, ◌≤◌, ◌<◌, ◌≡◌, refl, sym, ◌∙◌, inl, inr, Option, none, some, List, [], ◌∷◌, ◌++◌, arith, ltb,
  Bool-cases, length,
}

positive-some :
    (r : RecvResult) (bs : List ℕ) → positive r ≡ some bs → (r ≡ stored bs) × (0 < length bs)
unfolding positive
positive-some recv_error bs h = cc
positive-some recv_timeout bs h = cc
positive-some (stored []) bs h = cc
positive-some (stored (b ∷ xs)) bs h = ground arith

module _ (N : Network) where
  -- A round that goes on has at least one byte.
  pub recv_round-some :
      (p : IoPort) (n : ℕ) (w : N.World) (bs : List ℕ)
      → (recv_round N p n w).0 ≡ some bs
      → 0 < length bs
  unfolding recv_round
  recv_round-some p n w bs h = (positive-some (recv_once N p n w).0 bs h).1

abbrev result_bytes : RecvResult → List ℕ
result_bytes recv_error = []
result_bytes recv_timeout = []
result_bytes (stored bs) = bs

abbrev pub round_bytes : Option (List ℕ) → List ℕ
round_bytes none = []
round_bytes (some bs) = bs

round_bytes-positive : (r : RecvResult) → round_bytes (positive r) ≡ result_bytes r
unfolding positive
round_bytes-positive recv_error = refl
round_bytes-positive recv_timeout = refl
round_bytes-positive (stored []) = refl
round_bytes-positive (stored (b ∷ bs)) = refl

module _ (N : Network) (S : IsStream N) where
  open N use {World}
  open S use {inbound, outbound}

  -- The bytes are the next ones of the stream, and nothing is sent.
  pub record Takes (s : ℕ) (bs : List ℕ) (w w' : World) : Type 0 where
    pub taken : inbound s w ≡ bs ++ inbound s w'
    pub kept : outbound s w' ≡ outbound s w

  -- A result of `__recv` for at most `n` bytes, and the world after it.
  abbrev ReceivedBy : ℕ → ℕ → World → RecvResult × World → Type 0
  ReceivedBy s n w r = Takes s (result_bytes r.0) w r.1 × (length (result_bytes r.0) ≤ n)

  recv_result_takes :
      (s n : ℕ) (w w' : World) (x : Received × World)
      → N.recv s n w' ≡ x
      → inbound s w' ≡ inbound s w
      → outbound s w' ≡ outbound s w
      → ReceivedBy s n w (recv_result N x)
  unfolding recv_result
  recv_result_takes s n w w' (recv_failed, w'') e i o =
      let (a, b) = S.recv_failed-keeps s n w' w'' e in
      (record { taken = sym i ∙ a; kept = b ∙ o }, omega arith)
  recv_result_takes s n w w' (received bs, w'') e i o =
      let (a, b, c) = S.recv-takes s n w' w'' bs e in
      (record { taken = sym i ∙ a; kept = b ∙ o }, c)

  after_select_takes :
      (s n : ℕ) (w : World) (x : Selected × World)
      → inbound s x.1 ≡ inbound s w
      → outbound s x.1 ≡ outbound s w
      → ReceivedBy s n w (after_select N s n x)
  unfolding after_select
  after_select_takes s n w (select_failed, w') i o =
      (record { taken = sym i; kept = o }, omega arith)
  after_select_takes s n w (timed_out, w') i o = (record { taken = sym i; kept = o }, omega arith)
  after_select_takes s n w (ready, w') i o = recv_result_takes s n w w' (N.recv s n w') refl i o

  recv_once_takes : (p : IoPort) (n : ℕ) (w : World) → ReceivedBy p.s n w (recv_once N p n w)
  unfolding recv_once
  recv_once_takes p n w = elim (Bool-cases (ltb 0 p.timeout)) [
    | inl waits ↦
        let (i, o) = S.select_read-keeps p.s p.timeout w in
        rw waits (after_select_takes p.s n w (N.select_read p.s p.timeout w) i o)
    | inr direct ↦ rw direct (recv_result_takes p.s n w w (N.recv p.s n w) refl refl refl)
  ]

  pub recv_round-Takes :
      (p : IoPort) (n : ℕ) (w : World)
      → Takes p.s (round_bytes (recv_round N p n w).0) w (recv_round N p n w).1
        × (length (round_bytes (recv_round N p n w).0) ≤ n)
  unfolding recv_round
  recv_round-Takes p n w = rw round_bytes-positive (recv_once_takes p n w)
