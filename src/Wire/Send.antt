-- ===== src/Wire/Send.antt =====
-- `send_binary`: it ends on every network, and on a byte stream it appends its buffer or reports
-- that it did not.
use logger_verifier.Wire.Network.{Network, IsStream}
use logger_verifier.Wire.Transfer.{IoPort, Moved, send_once, send_loop, send_binary}
use logger_verifier.Base.{
  ℕ, zero, suc, ◌-◌, ◌≤◌, ◌<◌, ◌≡◌, refl, sym, ap, ◌∙◌, subst, ◌⊎◌, inl, inr, true, false, Option,
  none, some, List, [], ◌∷◌, ◌++◌, append-nil, append_assoc, arith, ◌==◌, if◌then◌else◌, Bool-cases,
  Option-cases, length, take, drop, take-append-drop, length-take, length-drop,
}
use logger_verifier.Wire.SendOnce.{send_once_pos, Gives, send_once-Gives}

module _ (N : Network) where
  send_loop_ends :
      (bufsize : ℕ) (p : IoPort) (f : ℕ) (done todo : List ℕ) (w : N.World)
      → length todo < f
      → (m : Moved N.World) × (send_loop N bufsize p f done todo w ≡ some m)
  unfolding send_loop
  send_loop_ends bufsize p zero done todo w h = absurd (omega arith)
  send_loop_ends bufsize p (suc f) done todo w h =
      elim (Option-cases (send_once N p (take bufsize todo) w).0) [
        | inl e ↦ (
          record {
            complete = false;
            bytes = done;
            world = (send_once N p (take bufsize todo) w).1;
          },
          ground arith,
        )
        | inr (n, e) ↦ elim (Bool-cases (length todo - n == 0)) [
          | inl last ↦ (
            record {
              complete = true;
              bytes = done ++ take n todo;
              world = (send_once N p (take bufsize todo) w).1;
            },
            ground arith,
          )
          | inr more ↦
              let (m, ends) =
                send_loop_ends bufsize p f (done ++ take n todo) (drop n todo)
                  (send_once N p (take bufsize todo) w).1
                  (ground
                    (arith, length-drop n todo, send_once_pos N p (take bufsize todo) w n e)) in
              (m, ground arith)
        ]
      ]

  -- `send_binary` returns on every network, whatever `ASYNC_BUFSIZE` is: one round for each byte of
  -- the buffer, and one more, are enough.
  pub send_binary_returns :
      (bufsize : ℕ) (port : Option IoPort) (bs : List ℕ) (w : N.World)
      → (m : Moved N.World) × (send_binary N bufsize port bs w ≡ some m)
  unfolding send_binary
  send_binary_returns bufsize none bs w = (record { complete = false; bytes = []; world = w }, refl)
  send_binary_returns bufsize (some p) bs w =
      send_loop_ends bufsize p (suc (length bs)) [] bs w (omega arith)

take-take :
    {A : Type 0} (n k : ℕ) (xs : List A) → n ≤ length (take k xs) → take n (take k xs) ≡ take n xs
take-take zero k xs h = refl
take-take (suc n) zero xs h = absurd (omega arith)
take-take (suc n) (suc k) [] h = refl
take-take (suc n) (suc k) (x ∷ xs) h = ap (◌∷◌ x) (take-take n k xs (omega arith))

nil_of_length : {A : Type 0} (xs : List A) → length xs ≡ 0 → xs ≡ []
nil_of_length [] h = refl
nil_of_length (x ∷ xs) h = absurd (omega arith)

module _ (N : Network) (S : IsStream N) where
  open N use {World}
  open S use {inbound, outbound}

  -- What `send_binary` has done when it returns: a first part of the buffer went out; all of it,
  -- and not nothing, if it reports success.
  pub record Writes (s : ℕ) (done todo : List ℕ) (w : World) (m : Moved World) : Type 0 where
    pub front : List ℕ
    pub back : List ℕ
    pub parts : front ++ back ≡ todo
    pub bytes_front : m.bytes ≡ done ++ front
    pub gives : Gives N S s front w m.world
    pub outcome : ((m.complete ≡ true) × (back ≡ []) × (0 < length todo)) ⊎ (m.complete ≡ false)

  Writes-later :
      (s n : ℕ) (done todo : List ℕ) (w w' : World) (m : Moved World)
      → Gives N S s (take n todo) w w'
      → Writes s (done ++ take n todo) (drop n todo) w' m
      → 0 < length todo
      → Writes s done todo w m
  Writes-later s n done todo w w' m g rest pos = record {
    front = take n todo ++ rest.front;
    back = rest.back;
    parts =
        append_assoc (take n todo) rest.front rest.back
        ∙ ap (◌++◌ (take n todo)) rest.parts
        ∙ take-append-drop n todo;
    bytes_front = rest.bytes_front ∙ append_assoc done (take n todo) rest.front;
    gives = record {
      given =
          rest.gives.given
          ∙ ap (λ x. x ++ rest.front) g.given
          ∙ append_assoc (outbound s w) (take n todo) rest.front;
      unread = rest.gives.unread ∙ g.unread;
    };
    outcome = ground (arith, rest.outcome);
  }

  -- The part of a round behind a send of `n` bytes.
  send_loop_goes_on :
      (bufsize : ℕ) (p : IoPort) (f : ℕ) (done todo : List ℕ) (n : ℕ) (w w' : World)
      (m : Moved World)
      → 0 < n
      → n ≤ length (take bufsize todo)
      → Gives N S p.s (take n (take bufsize todo)) w w'
      → (if length todo - n == 0
          then some (record { complete = true; bytes = done ++ take n todo; world = w' })
          else send_loop N bufsize p f (done ++ take n todo) (drop n todo) w')
        ≡ some m
      → (send_loop N bufsize p f (done ++ take n todo) (drop n todo) w' ≡ some m
          → Writes p.s (done ++ take n todo) (drop n todo) w' m)
      → Writes p.s done todo w m
  send_loop_goes_on bufsize p f done todo n w w' m pos fits g e later =
      let sent_n : Gives N S p.s (take n todo) w w' = rw (take-take n bufsize todo fits) at g in
      elim (Bool-cases (length todo - n == 0)) [
        | inl last ↦
            let same : record { complete = true; bytes = done ++ take n todo; world = w' } ≡ m =
              ground arith in
            subst (Writes p.s done todo w) same (record {
              front = take n todo;
              back = drop n todo;
              parts = take-append-drop n todo;
              bytes_front = refl;
              gives = sent_n;
              outcome = inl (
                refl,
                nil_of_length (drop n todo) (ground (arith, length-drop n todo)),
                omega (arith, length-take bufsize todo),
              );
            })
        | inr more ↦
            Writes-later p.s n done todo w w' m sent_n (later (rw more at e))
              (omega (arith, length-take bufsize todo))
      ]

  send_loop-Writes :
      (bufsize : ℕ) (p : IoPort) (f : ℕ) (done todo : List ℕ) (w : World) (m : Moved World)
      → send_loop N bufsize p f done todo w ≡ some m
      → Writes p.s done todo w m
  unfolding send_loop
  send_loop-Writes bufsize p zero done todo w m e = cc
  send_loop-Writes bufsize p (suc f) done todo w m e =
      let (g, fits) = send_once-Gives N S p (take bufsize todo) w in
      elim (Option-cases (send_once N p (take bufsize todo) w).0) [
        | inl stop ↦
            let same : record {
              complete = false;
              bytes = done;
              world = (send_once N p (take bufsize todo) w).1;
            }
                ≡ m =
              ground arith in
            subst (Writes p.s done todo w) same (record {
              front = [];
              back = todo;
              parts = refl;
              bytes_front = sym (append-nil done);
              gives = rw stop at g;
              outcome = inr refl;
            })
        | inr (n, more) ↦
            send_loop_goes_on bufsize p f done todo n w (send_once N p (take bufsize todo) w).1 m
              (send_once_pos N p (take bufsize todo) w n more) (rw more at fits) (rw more at g)
              (ground arith)
              (send_loop-Writes bufsize p f (done ++ take n todo) (drop n todo)
                (send_once N p (take bufsize todo) w).1 m)
      ]

  -- On a byte stream `send_binary`, whatever `ASYNC_BUFSIZE` is, reads nothing and sends a first
  -- part of its buffer. If it reports success, the whole buffer went out and was not empty; in
  -- particular an empty buffer is always reported as a failure.
  pub send_binary-Writes :
      (bufsize : ℕ) (p : IoPort) (bs : List ℕ) (w : World) (m : Moved World)
      → send_binary N bufsize (some p) bs w ≡ some m
      → Writes p.s [] bs w m
  unfolding send_binary
  send_binary-Writes bufsize p bs w m = send_loop-Writes bufsize p (suc (length bs)) [] bs w m
