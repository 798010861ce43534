-- ===== src/Wire/Steady.antt =====
-- The transfer loops on the network of Wire/Pipe: a message that is there is read as a whole, and a
-- message is sent as a whole.
use logger_verifier.Wire.Pipe.{PipeWorld, pipe, pipe_recv, pipe_send}
use logger_verifier.Wire.Transfer.{
  IoPort, Moved, int_bytes, stored, positive, positive_sent, recv_result, after_select, recv_once,
  recv_round, recv_loop, recv_binary, await_room, send_if_ready, send_once, send_loop, send_binary,
}
use logger_verifier.Base.{
  ℕ, zero, suc, ◌-◌, ◌^◌, ◌≤◌, ◌<◌, min, ◌≡◌, refl, ap, ◌∙◌, inl, inr, true, false, Option, none,
  some, List, [], ◌∷◌, ◌++◌, append-nil, append_assoc, arith, ◌==◌, if◌then◌else◌, Bool-cases,
  length, take, drop, take-append-drop, take_all, length-take, length-drop,
}

take-append_le {ℓ} :
    {A : Type ℓ} (n : ℕ) (xs ys : List A) → n ≤ length xs → take n (xs ++ ys) ≡ take n xs
take-append_le zero xs ys h = refl
take-append_le (suc n) [] ys h = ground arith
take-append_le (suc n) (x ∷ xs) ys h = ap (λ l. x ∷ l) (take-append_le n xs ys (omega arith))

drop-append_le {ℓ} :
    {A : Type ℓ} (n : ℕ) (xs ys : List A) → n ≤ length xs → drop n (xs ++ ys) ≡ drop n xs ++ ys
drop-append_le zero xs ys h = refl
drop-append_le (suc n) [] ys h = ground arith
drop-append_le (suc n) (x ∷ xs) ys h = drop-append_le n xs ys (omega arith)

-- What one call moves.
abbrev pub moved_bytes : ℕ → PipeWorld → ℕ
moved_bytes n w = min n w.chunk

positive-take :
    (n : ℕ) (xs : List ℕ) → 0 < n → 0 < length xs → positive (stored (take n xs)) ≡ some (take n xs)
unfolding positive
positive-take zero xs hn hx = ground arith
positive-take (suc n) [] hn hx = ground arith
positive-take (suc n) (x ∷ xs) hn hx = refl

recv_once-pipe :
    (p : IoPort) (n : ℕ) (w : PipeWorld)
    → recv_once pipe p n w ≡ (
      stored (take (moved_bytes n w) w.incoming),
      record w { incoming = drop (moved_bytes n w) w.incoming },
    )
unfolding recv_once after_select recv_result pipe_recv
recv_once-pipe p n w = ground arith

recv_round-pipe :
    (p : IoPort) (n : ℕ) (a b : List ℕ) (w : PipeWorld)
    → w.incoming ≡ a ++ b
    → 0 < w.chunk
    → 0 < n
    → n ≤ length a
    → recv_round pipe p n w
      ≡ (some (take (moved_bytes n w) a), record w { incoming = drop (moved_bytes n w) a ++ b })
unfolding recv_round
recv_round-pipe p n a b w h hc hn hl =
    rw
      (
        recv_once-pipe p n w,
        h,
        take-append_le (moved_bytes n w) a b (omega arith),
        drop-append_le (moved_bytes n w) a b (omega arith),
        positive-take (moved_bytes n w) a (omega arith) (omega arith),
      )
      refl

recv_loop-some :
    (p : IoPort) (f r : ℕ) (got : List ℕ) (w w' : PipeWorld) (bs : List ℕ)
    → recv_round pipe p (suc r) w ≡ (some bs, w')
    → recv_loop pipe (λ n. n) p (suc f) (suc r) got w
      ≡ recv_loop pipe (λ n. n) p f (suc r - length bs) (got ++ bs) w'
unfolding recv_loop
recv_loop-some p f r got w w' bs e =
    ap
      (λ x. elim x.0 [
        | none ↦ some (record { complete = false; bytes = got; world = x.1 })
        | some bs ↦ recv_loop pipe (λ n. n) p f (suc r - length bs) (got ++ bs) x.1
      ])
      e

recv_loop-pipe :
    (p : IoPort) (f r : ℕ) (got a b : List ℕ) (w : PipeWorld)
    → w.incoming ≡ a ++ b
    → 0 < w.chunk
    → length a ≡ r
    → r < f
    → recv_loop pipe (λ n. n) p f r got w
      ≡ some (record { complete = true; bytes = got ++ a; world = record w { incoming = b } })
unfolding recv_loop
recv_loop-pipe p zero r got a b w h hc hl hf = ground arith
recv_loop-pipe p (suc f) zero got [] b w h hc hl hf = rw (append-nil got, ← h) refl
recv_loop-pipe p (suc f) zero got (x ∷ a) b w h hc hl hf = ground arith
recv_loop-pipe p (suc f) (suc r) got a b w h hc hl hf =
    let k = moved_bytes (suc r) w in
    let w' : PipeWorld = record w { incoming = drop k a ++ b } in
    let left : length (drop k a) ≡ suc r - length (take k a) =
      omega (arith, length-drop k a, length-take k a, hl) in
    recv_loop-some p f r got w w' (take k a)
      (recv_round-pipe p (suc r) a b w h hc (omega arith) (omega arith))
    ∙ (recv_loop-pipe p f (suc r - length (take k a)) (got ++ take k a) (drop k a) b w' refl hc left
          (omega (arith, length-take k a))
        ∙ ap (λ l. some (record { complete = true; bytes = l; world = record w { incoming = b } }))
            (append_assoc got (take k a) (drop k a) ∙ ap (λ l. got ++ l) (take-append-drop k a)))

-- On the steady pipe `recv_binary` of the server reads a message that is there as a whole, and
-- leaves the rest.
pub recv_binary-pipe :
    (p : IoPort) (a b : List ℕ) (w : PipeWorld)
    → w.incoming ≡ a ++ b
    → 0 < w.chunk
    → length a < 2 ^ 31
    → recv_binary pipe p (length a) w
      ≡ some (record { complete = true; bytes = a; world = record w { incoming = b } })
unfolding recv_binary
recv_binary-pipe p a b w h hc hl =
    let e : int_bytes (length a) ≡ length a = ground arith in
    rw e (recv_loop-pipe p (suc (length a)) (length a) [] a b w h hc refl (omega arith))

send_once-pipe :
    (p : IoPort) (bs : List ℕ) (w : PipeWorld)
    → 0 < w.chunk
    → 0 < length bs
    → send_once pipe p bs w ≡ (
      some (moved_bytes (length bs) w),
      record w { outgoing = w.outgoing ++ take (moved_bytes (length bs) w) bs },
    )
unfolding send_once await_room send_if_ready positive_sent pipe_send
send_once-pipe p bs w hc hb = ground arith

-- A piece of a message that is sent as the first one and the rest.
abbrev piece : ℕ → List ℕ → PipeWorld → ℕ
piece bufsize todo w = moved_bytes (length (take bufsize todo)) w

take-take : (n m : ℕ) (xs : List ℕ) → n ≤ m → take n (take m xs) ≡ take n xs
take-take zero m xs h = refl
take-take (suc n) zero xs h = ground arith
take-take (suc n) (suc m) [] h = refl
take-take (suc n) (suc m) (x ∷ xs) h = ap (λ l. x ∷ l) (take-take n m xs (omega arith))

send_piece-pipe :
    (bufsize : ℕ) (p : IoPort) (todo : List ℕ) (w : PipeWorld)
    → 0 < bufsize
    → 0 < w.chunk
    → 0 < length todo
    → send_once pipe p (take bufsize todo) w ≡ (
      some (piece bufsize todo w),
      record w { outgoing = w.outgoing ++ take (piece bufsize todo w) todo },
    )
send_piece-pipe bufsize p todo w hb hc ht =
    let l = length-take bufsize todo in
    send_once-pipe p (take bufsize todo) w hc (omega (arith, l))
    ∙ ap (λ bs. (some (piece bufsize todo w), record w { outgoing = w.outgoing ++ bs }))
        (take-take (piece bufsize todo w) bufsize todo (omega (arith, l)))

send_loop-some :
    (bufsize : ℕ) (p : IoPort) (f n : ℕ) (done todo : List ℕ) (w w' : PipeWorld)
    → send_once pipe p (take bufsize todo) w ≡ (some n, w')
    → send_loop pipe bufsize p (suc f) done todo w ≡ (
        if length todo - n == 0
        then some (record { complete = true; bytes = done ++ take n todo; world = w' })
        else send_loop pipe bufsize p f (done ++ take n todo) (drop n todo) w')
unfolding send_loop
send_loop-some bufsize p f n done todo w w' e =
    ap
      (λ x. elim x.0 [
        | none ↦ some (record { complete = false; bytes = done; world = x.1 })
        | some n ↦
            let rest = send_loop pipe bufsize p f (done ++ take n todo) (drop n todo) x.1 in
            if length todo - n == 0
            then some (record { complete = true; bytes = done ++ take n todo; world = x.1 })
            else rest
      ])
      e

all_sent :
    (done out todo : List ℕ) (n : ℕ) (w : PipeWorld)
    → Path
        (Option (Moved PipeWorld))
        (some (record {
          complete = true;
          bytes = (done ++ take n todo) ++ drop n todo;
          world = record w { outgoing = (out ++ take n todo) ++ drop n todo };
        }))
        (some (record {
          complete = true;
          bytes = done ++ todo;
          world = record w { outgoing = out ++ todo };
        }))
all_sent done out todo n w =
    rw
      (
        append_assoc done (take n todo) (drop n todo),
        append_assoc out (take n todo) (drop n todo),
        take-append-drop n todo,
      )
      refl

send_loop-pipe :
    (bufsize : ℕ) (p : IoPort) (f : ℕ) (done todo : List ℕ) (w : PipeWorld)
    → 0 < bufsize
    → 0 < w.chunk
    → 0 < length todo
    → length todo < f
    → send_loop pipe bufsize p f done todo w
      ≡ some (record {
        complete = true;
        bytes = done ++ todo;
        world = record w { outgoing = w.outgoing ++ todo };
      })
unfolding send_loop
send_loop-pipe bufsize p zero done todo w hb hc ht hf = ground arith
send_loop-pipe bufsize p (suc f) done todo w hb hc ht hf =
    let n = piece bufsize todo w in
    let l = length-take bufsize todo in
    let d = length-drop n todo in
    let positive : 0 < n = omega (arith, l) in
    let w' : PipeWorld = record w { outgoing = w.outgoing ++ take n todo } in
    elim (Bool-cases (length todo - n == 0)) [
      | inl over ↦
          send_loop-some bufsize p f n done todo w w' (send_piece-pipe bufsize p todo w hb hc ht)
          ∙ rw (over, take_all n todo (ground arith)) refl
      | inr more ↦
          send_loop-some bufsize p f n done todo w w' (send_piece-pipe bufsize p todo w hb hc ht)
          ∙ rw more (
              send_loop-pipe bufsize p f (done ++ take n todo) (drop n todo) w' hb hc (ground arith)
                (ground arith)
              ∙ all_sent done w.outgoing todo n w)
    ]

-- On the steady pipe `send_binary` sends a message that is not empty as a whole.
pub send_binary-pipe :
    (bufsize : ℕ) (p : IoPort) (bs : List ℕ) (w : PipeWorld)
    → 0 < bufsize
    → 0 < w.chunk
    → 0 < length bs
    → send_binary pipe bufsize (some p) bs w
      ≡ some
          (record { complete = true; bytes = bs; world = record w { outgoing = w.outgoing ++ bs } })
unfolding send_binary
send_binary-pipe bufsize p bs w ha hc hb =
    send_loop-pipe bufsize p (suc (length bs)) [] bs w ha hc hb (omega arith)
