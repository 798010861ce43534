-- ===== src/Logger/Threads/Refines.antt =====
-- What the two threads of the capture do together is what `capture` does of a list of frames.
use mathlib.Core.List.{Memᴰ}
use logger_verifier.Logger.Pictures.{Mat}
use logger_verifier.Logger.Pipeline.{Queues, Vision, Grab, keep_frame, capture}
use logger_verifier.Logger.Threads.{
  Capturer, done, stopping, free, System, begin, after_frame, Step, read, lock, store, unlock,
  capture_lock, copy, capture_unlock, judge, cancel_fails, cancel, Reach, start, later,
}
use logger_verifier.Logger.Threads.Exclusion.{
  has_lock, capture_has_lock, is_over, has_ended, IsExclusive, IsJoined, Step-IsExclusive,
  Step-IsJoined,
}
use logger_verifier.Logger.Threads.Seen.{
  in_hand, looked_at, IsDelivered, IsSeen, delivered_later, Step-IsSeen,
}
use logger_verifier.Base.{
  ℕ, ◌≡◌, refl, sym, ap, ◌∙◌, subst, inl, inr, true, false, ◌&&◌, some, List, [], ◌∷◌, ◌++◌,
  append_assoc, arith, ◌==◌, Bool-cases, length, All, All-append,
}

capture-goes_on :
    (V : Vision) (n : ℕ) (g : Grab) (more : List Grab) (q : Queues)
    → (length (keep_frame V g q).bgr_queue == n && g.cancelled) ≡ false
    → capture V n (g ∷ more) q ≡ capture V n more (keep_frame V g q)
unfolding capture
capture-goes_on V n g more q e = rw e refl

capture-ends :
    (V : Vision) (n : ℕ) (g : Grab) (more : List Grab) (q : Queues)
    → (length (keep_frame V g q).bgr_queue == n && g.cancelled) ≡ true
    → capture V n (g ∷ more) q ≡ some (keep_frame V g q)
unfolding capture
capture-ends V n g more q e = rw e refl

module _ (V : Vision) (frame_count : ℕ) where
  -- The frames that `capture` has looked at, from the queues `first`, have led to the queues `q`.
  Ran : Queues → List Grab → Queues → Type 0
  Ran first gs q =
      (more : List Grab) → capture V frame_count (gs ++ more) first ≡ capture V frame_count more q

  Ran-start : (first : Queues) → Ran first [] first
  unfolding Ran
  Ran-start first more = refl

  Ran-goes_on :
      (first q : Queues) (gs : List Grab) (g : Grab)
      → Ran first gs q
      → (length (keep_frame V g q).bgr_queue == frame_count && g.cancelled) ≡ false
      → Ran first (gs ++ g ∷ []) (keep_frame V g q)
  unfolding Ran
  Ran-goes_on first q gs g ran e more =
      ap (λ l. capture V frame_count l first) (append_assoc gs (g ∷ []) more)
      ∙ ran (g ∷ more)
      ∙ capture-goes_on V frame_count g more q e

  Ran-ends :
      (first q : Queues) (gs : List Grab) (g : Grab)
      → Ran first gs q
      → (length (keep_frame V g q).bgr_queue == frame_count && g.cancelled) ≡ true
      → capture V frame_count (gs ++ g ∷ []) first ≡ some (keep_frame V g q)
  unfolding Ran
  Ran-ends first q gs g ran e = ran (g ∷ []) ∙ capture-ends V frame_count g [] q e

  -- What that is at each point of `capture`.
  Caught : Queues → List Grab → Capturer → Queues → Type 0
  Caught first gs (stopping g) q =
      (before : Queues) × Ran first gs before
      × (q ≡ keep_frame V g before)
      × ((length q.bgr_queue == frame_count) ≡ true)
  Caught first gs done q = capture V frame_count gs first ≡ some q
  Caught first gs _ q = Ran first gs q

  IsCaught : Queues → System → Type 0
  IsCaught first s =
      (gs : List Grab) × All (λ g. Memᴰ g.picture s.delivered) gs
      × Caught first gs s.capturer s.queues

  judged :
      (first q : Queues) (delivered : List Mat) (gs : List Grab) (g : Grab)
      → Memᴰ g.picture delivered
      → All (λ g. Memᴰ g.picture delivered) gs
      → Ran first gs q
      → (gs' : List Grab) × All (λ g. Memᴰ g.picture delivered) gs'
        × Caught first gs' (after_frame V frame_count g (keep_frame V g q)) (keep_frame V g q)
  unfolding after_frame Caught
  judged first q delivered gs g m seen ran =
      elim (Bool-cases (length (keep_frame V g q).bgr_queue == frame_count)) [
        | inl e ↦ (gs, seen, rw e (q, ran, refl, e))
        | inr e ↦ (
          gs ++ g ∷ [],
          All-append _ gs (g ∷ []) seen (m, tt),
          rw e (Ran-goes_on first q gs g ran (ground arith)),
        )
      ]

  Step-IsCaught :
      {s s' : System} (first : Queues)
      → Step V frame_count s s'
      → IsSeen s
      → IsCaught first s
      → IsCaught first s'
  unfolding IsCaught Caught IsSeen looked_at IsDelivered
  Step-IsCaught {s} first (read p e) seen (gs, from, c) =
      (gs, delivered_later (λ g. g.picture) p s.delivered gs from, c)
  Step-IsCaught first (lock p e l) seen c = c
  Step-IsCaught first (store p e) seen c = c
  Step-IsCaught first (unlock e) seen c = c
  Step-IsCaught {s} first (capture_lock e l) seen (gs, from, c) =
      (gs, from, subst (λ x. Caught first gs x s.queues) e c)
  Step-IsCaught {s} first (copy e) seen (gs, from, c) =
      (gs, from, subst (λ x. Caught first gs x s.queues) e c)
  Step-IsCaught {s} first (capture_unlock p e) seen (gs, from, c) =
      (gs, from, subst (λ x. Caught first gs x s.queues) e c)
  Step-IsCaught {s} first (judge g e) (f, u, k) (gs, from, c) =
      judged first s.queues s.delivered gs g
        (subst (λ x. IsDelivered s.delivered (looked_at x)) e k).0 from
        (subst (λ x. Caught first gs x s.queues) e c)
  Step-IsCaught {s} first (cancel_fails g e b) (f, u, k) (gs, from, c) =
      let (before, ran, same, full) = subst (λ x. Caught first gs x s.queues) e c in
      (
        gs ++ g ∷ [],
        All-append _ gs (g ∷ []) from
            ((subst (λ x. IsDelivered s.delivered (looked_at x)) e k).0, tt),
        subst (Ran first (gs ++ g ∷ [])) (sym same)
            (Ran-goes_on first before gs g ran (ground arith)),
      )
  Step-IsCaught {s} first (cancel g e b r) (f, u, k) (gs, from, c) =
      let (before, ran, same, full) = subst (λ x. Caught first gs x s.queues) e c in
      (
        gs ++ g ∷ [],
        All-append _ gs (g ∷ []) from
            ((subst (λ x. IsDelivered s.delivered (looked_at x)) e k).0, tt),
        Ran-ends first before gs g ran (rw (← same) (ground arith)) ∙ ap some (sym same),
      )

  Reach-IsCaught :
      (frame : Mat) (q : Queues) {s : System}
      → Reach V frame_count (begin frame q) s
      → IsExclusive s × IsJoined s × IsSeen s × IsCaught q s
  unfolding begin IsJoined is_over IsExclusive has_lock capture_has_lock IsSeen in_hand looked_at
      IsDelivered IsCaught Caught
  Reach-IsCaught frame q start =
      (inl (refl, refl, refl), inl refl, (Memᴰ.head refl, tt, tt), ([], tt, Ran-start q))
  Reach-IsCaught frame q (later r step) =
      let (x, j, seen, caught) = Reach-IsCaught frame q r in
      (
        Step-IsExclusive V frame_count step x,
        Step-IsJoined V frame_count step j,
        Step-IsSeen V frame_count step seen,
        Step-IsCaught q step seen caught,
      )

  -- However the two threads take turns, when `capture` has ended its queues are what the loop of
  -- `capture` makes of a list of frames, each of which the camera has delivered or was there when
  -- `capture` began, whole as it was, and the lock that it destroys is held by neither thread.
  pub capture_threads-refine :
      {s : System} (frame : Mat) (q : Queues)
      → Reach V frame_count (begin frame q) s
      → s.capturer ≡ done
      → (gs : List Grab) × All (λ g. Memᴰ g.picture s.delivered) gs
        × (capture V frame_count gs q ≡ some s.queues)
        × (s.locker ≡ free)
  unfolding IsCaught Caught IsExclusive has_lock capture_has_lock IsJoined is_over has_ended
  capture_threads-refine {s} frame q r e =
      let (x, j, seen, (gs, from, c)) = Reach-IsCaught frame q r in
      (gs, from, subst (λ x. Caught q gs x s.queues) e c, ground arith)
