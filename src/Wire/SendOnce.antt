-- ===== src/Wire/SendOnce.antt =====
-- One round of `send_binary`: a `__send` that gets room, or not.
use logger_verifier.Wire.Network.{
  Network, IsStream, Selected, select_failed, timed_out, ready, Sent, send_failed, sent,
}
use logger_verifier.Wire.Transfer.{IoPort, positive_sent, await_room, send_if_ready, send_once}
use logger_verifier.Base.{
  ℕ, zero, suc, ◌≤◌, ◌<◌, ◌≡◌, refl, sym, ap, ◌∙◌, Option, none, some, List, [], ◌++◌, append-nil,
  arith, length, take,
}

positive_sent_pos : (r : Sent) (n : ℕ) → positive_sent r ≡ some n → (r ≡ sent n) × (0 < n)
unfolding positive_sent
positive_sent_pos send_failed n h = cc
positive_sent_pos (sent zero) n h = cc
positive_sent_pos (sent (suc k)) n h = ground arith

module _ (N : Network) where
  send_if_ready_pos :
      (p : IoPort) (bs : List ℕ) (r : Selected) (w : N.World) (n : ℕ)
      → (send_if_ready N p bs r w).0 ≡ some n
      → 0 < n
  unfolding send_if_ready
  send_if_ready_pos p bs select_failed w n h = cc
  send_if_ready_pos p bs timed_out w n h = cc
  send_if_ready_pos p bs ready w n h = (positive_sent_pos (N.send p.s bs w).0 n h).1

  pub send_once_pos :
      (p : IoPort) (bs : List ℕ) (w : N.World) (n : ℕ) → (send_once N p bs w).0 ≡ some n → 0 < n
  unfolding send_once
  send_once_pos p bs w n h =
      send_if_ready_pos p bs (await_room N 4 p w).0 (await_room N 4 p w).1 n h

abbrev pub count_sent : Option ℕ → ℕ
count_sent none = 0
count_sent (some n) = n

module _ (N : Network) (S : IsStream N) where
  open N use {World}
  open S use {inbound, outbound}

  -- The bytes went out behind what was sent before, and nothing was read.
  pub record Gives (s : ℕ) (bs : List ℕ) (w w' : World) : Type 0 where
    pub given : outbound s w' ≡ outbound s w ++ bs
    pub unread : inbound s w' ≡ inbound s w

  Gives-nothing :
      (s : ℕ) (w w' : World)
      → outbound s w' ≡ outbound s w
      → inbound s w' ≡ inbound s w
      → Gives s [] w w'
  Gives-nothing s w w' o i = record { given = o ∙ sym (append-nil (outbound s w)); unread = i }

  await_room_keeps :
      (i : ℕ) (p : IoPort) (w : World)
      → (inbound p.s (await_room N i p w).1 ≡ inbound p.s w)
        × (outbound p.s (await_room N i p w).1 ≡ outbound p.s w)
  unfolding await_room
  await_room_keeps zero p w = (refl, refl)
  await_room_keeps (suc zero) p w = S.select_write-keeps p.s 5 w
  await_room_keeps (suc (suc i)) p w =
      ground
        (arith, S.select_write-keeps p.s 5 w, await_room_keeps (suc i) p (N.select_write p.s 5 w).1)

  positive_sent-Gives :
      (s : ℕ) (bs : List ℕ) (w : World) (x : Sent × World)
      → N.send s bs w ≡ x
      → Gives s (take (count_sent (positive_sent x.0)) bs) w x.1
        × (count_sent (positive_sent x.0) ≤ length bs)
  unfolding positive_sent
  positive_sent-Gives s bs w (send_failed, w') e =
      let (o, i) = S.send_failed-keeps s bs w w' e in (Gives-nothing s w w' o i, omega arith)
  positive_sent-Gives s bs w (sent zero, w') e =
      let (o, i, fits) = S.send-adds s 0 bs w w' e in (record { given = o; unread = i }, fits)
  positive_sent-Gives s bs w (sent (suc n), w') e =
      let (o, i, fits) = S.send-adds s (suc n) bs w w' e in (record { given = o; unread = i }, fits)

  send_if_ready-Gives :
      (p : IoPort) (bs : List ℕ) (r : Selected) (w : World)
      → Gives p.s (take (count_sent (send_if_ready N p bs r w).0) bs) w (send_if_ready N p bs r w).1
        × (count_sent (send_if_ready N p bs r w).0 ≤ length bs)
  unfolding send_if_ready
  send_if_ready-Gives p bs select_failed w = (Gives-nothing p.s w w refl refl, omega arith)
  send_if_ready-Gives p bs timed_out w = (Gives-nothing p.s w w refl refl, omega arith)
  send_if_ready-Gives p bs ready w = positive_sent-Gives p.s bs w (N.send p.s bs w) refl

  pub send_once-Gives :
      (p : IoPort) (bs : List ℕ) (w : World)
      → Gives p.s (take (count_sent (send_once N p bs w).0) bs) w (send_once N p bs w).1
        × (count_sent (send_once N p bs w).0 ≤ length bs)
  unfolding send_once
  send_once-Gives p bs w =
      let (i, o) = await_room_keeps 4 p w in
      let (g, fits) = send_if_ready-Gives p bs (await_room N 4 p w).0 (await_room N 4 p w).1 in
      (
        record {
          given =
              g.given
              ∙ ap
                  (λ x.
                    x
                    ++ take
                        (count_sent
                          (send_if_ready N p bs (await_room N 4 p w).0 (await_room N 4 p w).1).0)
                        bs)
                  o;
          unread = g.unread ∙ i;
        },
        fits,
      )
