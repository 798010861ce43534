-- ===== src/Logger/Threads/Exclusion.antt =====
-- The lock of the capture: at most one thread is behind it, and neither when `capture` has ended.
use logger_verifier.Logger.Pipeline.{Queues, Vision, Grab, keep_frame}
use logger_verifier.Logger.Threads.{
  Updater, stored, ended, locked, Capturer, holding, done, copied, free, by_updater, by_capturer,
  System, after_frame, Step, read, lock, store, unlock, capture_lock, copy, capture_unlock, judge,
  cancel_fails, cancel,
}
use logger_verifier.Base.{ℕ, ◌≡◌, ◌⊎◌, inl, inr, Bool, true, false, arith, ◌==◌, Bool-cases, length}

-- Who is behind the lock.
unfoldable pub has_lock : Updater → Bool
has_lock (locked p) = true
has_lock stored = true
has_lock _ = false

unfoldable pub capture_has_lock : Capturer → Bool
capture_has_lock holding = true
capture_has_lock (copied p) = true
capture_has_lock _ = false

-- At most one thread is behind the lock, and it is the holder.
unfoldable pub IsExclusive : System → Type 0
IsExclusive s =
    ((s.locker ≡ free) × (has_lock s.updater ≡ false) × (capture_has_lock s.capturer ≡ false))
    ⊎ (((s.locker ≡ by_updater)
          × (has_lock s.updater ≡ true)
          × (capture_has_lock s.capturer ≡ false))
        ⊎ ((s.locker ≡ by_capturer)
            × (has_lock s.updater ≡ false)
            × (capture_has_lock s.capturer ≡ true)))

-- When `capture` has ended, the other thread has.
unfoldable pub is_over : Capturer → Bool
is_over done = true
is_over _ = false

unfoldable pub has_ended : Updater → Bool
has_ended ended = true
has_ended _ = false

unfoldable pub IsJoined : System → Type 0
IsJoined s = (is_over s.capturer ≡ false) ⊎ (has_ended s.updater ≡ true)

module _ (V : Vision) (frame_count : ℕ) where
  after_frame-unlocked :
      (g : Grab) (q : Queues) → capture_has_lock (after_frame V frame_count g q) ≡ false
  unfolding after_frame capture_has_lock
  after_frame-unlocked g q = elim (Bool-cases (length q.bgr_queue == frame_count)) [
    | inl e ↦ ground arith
    | inr e ↦ ground arith
  ]

  pub Step-IsExclusive : {s s' : System} → Step V frame_count s s' → IsExclusive s → IsExclusive s'
  unfolding IsExclusive has_lock capture_has_lock
  Step-IsExclusive (read p e) h = ground arith
  Step-IsExclusive (lock p e f) h = ground arith
  Step-IsExclusive (store p e) h = ground arith
  Step-IsExclusive (unlock e) h = ground arith
  Step-IsExclusive (capture_lock e f) h = ground arith
  Step-IsExclusive (copy e) h = ground arith
  Step-IsExclusive (capture_unlock p e) h = ground arith
  Step-IsExclusive {s} (judge g e) h =
      let k = after_frame-unlocked g (keep_frame V g s.queues) in ground arith
  Step-IsExclusive (cancel_fails g e f) h = ground arith
  Step-IsExclusive (cancel g e f u) h = ground arith

  after_frame-not_over : (g : Grab) (q : Queues) → is_over (after_frame V frame_count g q) ≡ false
  unfolding after_frame is_over
  after_frame-not_over g q = elim (Bool-cases (length q.bgr_queue == frame_count)) [
    | inl e ↦ ground arith
    | inr e ↦ ground arith
  ]

  pub Step-IsJoined : {s s' : System} → Step V frame_count s s' → IsJoined s → IsJoined s'
  unfolding IsJoined is_over has_ended
  Step-IsJoined (read p e) h = ground arith
  Step-IsJoined (lock p e f) h = ground arith
  Step-IsJoined (store p e) h = ground arith
  Step-IsJoined (unlock e) h = ground arith
  Step-IsJoined (capture_lock e f) h = ground arith
  Step-IsJoined (copy e) h = ground arith
  Step-IsJoined (capture_unlock p e) h = ground arith
  Step-IsJoined {s} (judge g e) h = inl (after_frame-not_over g (keep_frame V g s.queues))
  Step-IsJoined (cancel_fails g e f) h = ground arith
  Step-IsJoined (cancel g e f u) h = ground arith
