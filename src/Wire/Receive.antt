-- ===== src/Wire/Receive.antt =====
-- `recv_binary` on both sides: it ends on every network, and on a byte stream it moves exactly the
-- next bytes of the stream.
use logger_verifier.Wire.Network.{Network, IsStream}
use logger_verifier.Wire.Transfer.{
  IoPort, Moved, int_bytes, recv_round, recv_loop, recv_binary, client_recv_binary, async_bufsize,
}
use logger_verifier.Base.{
  ℕ, zero, suc, ◌-◌, ◌^◌, ◌≤◌, ◌<◌, min, ◌≡◌, refl, sym, ap, ◌∙◌, subst, ◌⊎◌, inl, inr, true, false,
  some, List, [], ◌++◌, append-nil, append_assoc, arith, Option-cases, length, length-append,
  append-cancel,
}
use logger_verifier.Wire.RecvOnce.{recv_round-some, round_bytes, Takes, recv_round-Takes}

module _ (N : Network) where
  recv_loop_ends :
      (ask : ℕ → ℕ) (p : IoPort) (f remain : ℕ) (got : List ℕ) (w : N.World)
      → remain < f
      → (m : Moved N.World) × (recv_loop N ask p f remain got w ≡ some m)
  unfolding recv_loop
  recv_loop_ends ask p zero remain got w h = absurd (omega arith)
  recv_loop_ends ask p (suc f) zero got w h = (_, refl)
  recv_loop_ends ask p (suc f) (suc r) got w h =
      elim (Option-cases (recv_round N p (ask (suc r)) w).0) [
        | inl e ↦ (
          record { complete = false; bytes = got; world = (recv_round N p (ask (suc r)) w).1 },
          ground arith,
        )
        | inr (bs, e) ↦
            let (m, done) =
              recv_loop_ends ask p f (suc r - length bs) (got ++ bs)
                (recv_round N p (ask (suc r)) w).1
                (omega (arith, recv_round-some N p (ask (suc r)) w bs e)) in
            (m, rw (e, recv_loop) done)
      ]

  -- `recv_binary` of the server returns on every network, after at most as many rounds as there are
  -- bytes to read.
  pub recv_binary_returns :
      (p : IoPort) (size : ℕ) (w : N.World)
      → (m : Moved N.World) × (recv_binary N p size w ≡ some m)
  unfolding recv_binary
  recv_binary_returns p size w =
      recv_loop_ends (λ n. n) p (suc (int_bytes size)) (int_bytes size) [] w (omega arith)

  pub client_recv_binary_returns :
      (p : IoPort) (size : ℕ) (w : N.World)
      → (m : Moved N.World) × (client_recv_binary N p size w ≡ some m)
  unfolding client_recv_binary
  client_recv_binary_returns p size w =
      recv_loop_ends (min async_bufsize) p (suc (int_bytes size)) (int_bytes size) [] w
        (omega arith)

module _ (N : Network) (S : IsStream N) where
  open N use {World}
  open S use {inbound, outbound}

  -- What the loop has when it stops: `got` and the next bytes of the stream, all of them exactly if
  -- the loop reports success.
  pub record Reads (s remain : ℕ) (got : List ℕ) (w : World) (m : Moved World) : Type 0 where
    pub next : List ℕ
    pub bytes_next : m.bytes ≡ got ++ next
    pub takes : Takes N S s next w m.world
    pub outcome :
        ((m.complete ≡ true) × (length next ≡ remain))
        ⊎ ((m.complete ≡ false) × (length next < remain))

  recv_loop_continues :
      (bs : List ℕ) (w' : World) (s r : ℕ) (got : List ℕ) (w : World) (m : Moved World)
      → Takes N S s bs w w'
      → 0 < length bs
      → length bs ≤ suc r
      → Reads s (suc r - length bs) (got ++ bs) w' m
      → Reads s (suc r) got w m
  recv_loop_continues bs w' s r got w m t some_bytes fits rest = record {
    next = bs ++ rest.next;
    bytes_next = rest.bytes_next ∙ append_assoc got bs rest.next;
    takes = record {
      taken = t.taken ∙ ap (◌++◌ bs) rest.takes.taken ∙ sym (append_assoc bs rest.next _);
      kept = rest.takes.kept ∙ t.kept;
    };
    outcome = ground (arith, length-append bs rest.next, rest.outcome);
  }

  recv_loop-Reads :
      (ask : ℕ → ℕ) (asks : (n : ℕ) → ask n ≤ n) (p : IoPort) (f remain : ℕ) (got : List ℕ)
      (w : World) (m : Moved World)
      → recv_loop N ask p f remain got w ≡ some m
      → Reads p.s remain got w m
  unfolding recv_loop
  recv_loop-Reads ask asks p zero remain got w m e = cc
  recv_loop-Reads ask asks p (suc f) zero got w m e =
      let same : record { complete = true; bytes = got; world = w } ≡ m = cc in
      subst (Reads p.s zero got w) same (record {
        next = [];
        bytes_next = sym (append-nil got);
        takes = record { taken = refl; kept = refl };
        outcome = inl (refl, refl);
      })
  recv_loop-Reads ask asks p (suc f) (suc r) got w m e =
      elim (Option-cases (recv_round N p (ask (suc r)) w).0) [
        | inl stop ↦
            let same : record {
              complete = false;
              bytes = got;
              world = (recv_round N p (ask (suc r)) w).1;
            }
                ≡ m =
              ground arith in
            let (t, _) = recv_round-Takes N S p (ask (suc r)) w in
            subst (Reads p.s (suc r) got w) same (record {
              next = [];
              bytes_next = sym (append-nil got);
              takes = rw stop at t;
              outcome = inr (refl, omega arith);
            })
        | inr (bs, more) ↦
            let (t, fits) = recv_round-Takes N S p (ask (suc r)) w in
            recv_loop_continues bs (recv_round N p (ask (suc r)) w).1 p.s r got w m (rw more at t)
              (recv_round-some N p (ask (suc r)) w bs more)
              (omega (arith, asks (suc r), ap (λ o. length (round_bytes o)) more))
              (recv_loop-Reads ask asks p f (suc r - length bs) (got ++ bs)
                (recv_round N p (ask (suc r)) w).1 m (ground arith))
      ]

  -- On a byte stream `recv_binary` of the server stores the next bytes of the stream and sends
  -- nothing. It reports success exactly if it has stored all the bytes asked for; a size from 2^31
  -- on counts as none at all.
  pub recv_binary-Reads :
      (p : IoPort) (size : ℕ) (w : World) (m : Moved World)
      → recv_binary N p size w ≡ some m
      → Reads p.s (int_bytes size) [] w m
  unfolding recv_binary
  recv_binary-Reads p size w m =
      recv_loop-Reads (λ n. n) (λ n. omega arith) p (suc (int_bytes size)) (int_bytes size) [] w m

  -- On a byte stream `recv_binary` of the client, which asks for at most `ASYNC_BUFSIZE` bytes at a
  -- time, stores the next bytes of the stream and sends nothing. It reports success exactly if it
  -- has stored all the bytes asked for; a size from 2^31 on counts as none at all.
  pub client_recv_binary-Reads :
      (p : IoPort) (size : ℕ) (w : World) (m : Moved World)
      → client_recv_binary N p size w ≡ some m
      → Reads p.s (int_bytes size) [] w m
  unfolding client_recv_binary
  client_recv_binary-Reads p size w m =
      recv_loop-Reads (min async_bufsize) (λ n. omega arith) p (suc (int_bytes size))
        (int_bytes size) [] w m

module _ (N : Network) (S : IsStream N) where
  -- When the stream holds a message of the size asked for, and then anything, a successful
  -- `recv_binary` of the server stores exactly the message and leaves the rest to be read.
  pub recv_binary_message :
      (p : IoPort) (message rest : List ℕ) (w : N.World) (m : Moved N.World)
      → length message < 2 ^ 31
      → S.inbound p.s w ≡ message ++ rest
      → recv_binary N p (length message) w ≡ some m
      → m.complete ≡ true
      → (m.bytes ≡ message) × (S.inbound p.s m.world ≡ rest)
  recv_binary_message p message rest w m small holds e success =
      let r = recv_binary-Reads N S p (length message) w m e in
      let (a, b) =
        append-cancel r.next (S.inbound p.s m.world) message rest (ground (arith, r.outcome))
          (sym r.takes.taken ∙ holds) in
      (r.bytes_next ∙ a, b)
