-- ===== src/Logger/Threads/Stale.antt =====
-- The capture does not wait for a new frame.
use logger_verifier.Logger.Pictures.{Mat}
use logger_verifier.Logger.Pipeline.{Queues, Vision, Grab, keep_frame}
use logger_verifier.Logger.Threads.{
  ended, waiting, done, stopping, System, begin, after_frame, read, lock, store, unlock,
  capture_lock, copy, capture_unlock, judge, cancel, Reach, start, later,
}
use logger_verifier.Base.{
  ℕ, zero, suc, ◌+◌, ◌-◌, ◌<◌, ◌≡◌, refl, sym, ap, ◌∙◌, subst, ◌≢◌, true, List, [], ◌∷◌, ◌++◌,
  append_assoc, arith, length, replicate, length-append,
}

keep_frame-pushes :
    (V : Vision) (g : Grab) (q : Queues)
    → length g.picture.bytes ≢ 0
    → V.element_mean g.picture ≢ 0
    → (keep_frame V g q).bgr_queue ≡ q.bgr_queue ++ g.picture ∷ []
unfolding keep_frame
keep_frame-pushes V g q a b = ground arith

keep_frame-length :
    (V : Vision) (g : Grab) (q : Queues)
    → length g.picture.bytes ≢ 0
    → V.element_mean g.picture ≢ 0
    → length (keep_frame V g q).bgr_queue ≡ length q.bgr_queue + 1
keep_frame-length V g q a b =
    ap length (keep_frame-pushes V g q a b) ∙ length-append q.bgr_queue (g.picture ∷ [])

module _ (V : Vision) (frame_count : ℕ) where
  -- `frame` is the last of the frames that were delivered, and no thread is behind the lock.
  resting : Mat → List Mat → Queues → System
  resting frame delivered q = record (begin frame q) { delivered = delivered }

  -- A turn of the loop of `capture` in which the other thread does nothing.
  turn :
      {first : System} (g : Grab) (d : List Mat) (q : Queues)
      → Reach V frame_count first (resting g.picture d q)
      → Reach V frame_count first (record (resting g.picture d (keep_frame V g q)) {
        capturer = after_frame V frame_count g (keep_frame V g q);
      })
  unfolding begin resting
  turn g d q r =
      later
        (later (later (later r (capture_lock refl refl)) (copy refl))
          (capture_unlock g.picture refl))
        (judge g refl)

  after_frame-stopping :
      (g : Grab) (q : Queues)
      → length q.bgr_queue ≡ frame_count
      → after_frame V frame_count g q ≡ stopping g
  unfolding after_frame
  after_frame-stopping g q e = ground arith

  after_frame-waiting :
      (g : Grab) (q : Queues)
      → length q.bgr_queue ≢ frame_count
      → after_frame V frame_count g q ≡ waiting
  unfolding after_frame
  after_frame-waiting g q e = ground arith

  repeats :
      {first : System} (n : ℕ) (g : Grab) (d : List Mat) (q : Queues)
      → length g.picture.bytes ≢ 0
      → V.element_mean g.picture ≢ 0
      → g.cancelled ≡ true
      → length q.bgr_queue + suc n ≡ frame_count
      → Reach V frame_count first (resting g.picture d q)
      → (s : System) × Reach V frame_count first s
        × (s.capturer ≡ done)
        × (s.queues.bgr_queue ≡ q.bgr_queue ++ replicate (suc n) g.picture)
        × (s.delivered ≡ d)
  unfolding begin resting
  repeats zero g d q a b c e r =
      let size = keep_frame-length V g q a b in
      let stops = after_frame-stopping g (keep_frame V g q) (omega arith) in
      (
        record (resting g.picture d (keep_frame V g q)) { capturer = done; updater = ended },
        later (turn g d q r) (cancel g stops c refl),
        refl,
        keep_frame-pushes V g q a b,
        refl,
      )
  repeats {first} (suc n) g d q a b c e r =
      let size = keep_frame-length V g q a b in
      let waits = after_frame-waiting g (keep_frame V g q) (omega arith) in
      let (s, reached, over, frames, delivered) =
        repeats n g d (keep_frame V g q) a b c (omega arith) (
          subst
            (λ x.
              Reach V frame_count first
                (record (resting g.picture d (keep_frame V g q)) { capturer = x }))
            waits (turn g d q r)) in
      (
        s,
        reached,
        over,
        frames
            ∙ ap (λ l. l ++ replicate (suc n) g.picture) (keep_frame-pushes V g q a b)
            ∙ append_assoc q.bgr_queue (g.picture ∷ []) (replicate (suc n) g.picture),
        delivered,
      )

  -- The other thread stores one frame.
  stored_once :
      (frame p : Mat) (q : Queues)
      → Reach V frame_count (begin frame q) (resting p (p ∷ frame ∷ []) q)
  unfolding begin resting
  stored_once frame p q =
      later (later (later (later start (read p refl)) (lock p refl refl)) (store p refl))
        (unlock refl)

  -- Whatever frame stands there first, black as `init` leaves it or not, from an empty queue
  -- `capture` can end with `frame_count` times one picture that the camera has delivered once, if
  -- that is not black.
  pub capture_repeats :
      (frame picture : Mat) (cid : List ℕ) (q : Queues)
      → length picture.bytes ≢ 0
      → V.element_mean picture ≢ 0
      → q.bgr_queue ≡ []
      → 0 < frame_count
      → (s : System) × Reach V frame_count (begin frame q) s
        × (s.capturer ≡ done)
        × (s.queues.bgr_queue ≡ replicate frame_count picture)
        × (s.delivered ≡ picture ∷ frame ∷ [])
  capture_repeats frame picture cid q a b c d =
      let size : frame_count ≡ suc (frame_count - 1) = omega arith in
      let none_yet : length q.bgr_queue ≡ 0 = rw c refl in
      let g : Grab = record { picture = picture; cid = cid; cancelled = true } in
      let (s, reached, over, frames, delivered) =
        repeats (frame_count - 1) g (picture ∷ frame ∷ []) q a b refl (omega arith)
          (stored_once frame picture q) in
      (
        s,
        reached,
        over,
        frames
            ∙ ap (λ l. l ++ replicate (suc (frame_count - 1)) picture) c
            ∙ ap (λ k. replicate k picture) (sym size),
        delivered,
      )
