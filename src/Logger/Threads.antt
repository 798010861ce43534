-- ===== src/Logger/Threads.antt =====
-- `UpdateFrame` and `capture` of Logger/Logger.cpp as two threads that share `frame` under
-- `frameLocker`, as a step relation, each step as much of the code as runs without a call that can
-- wait.
pub mod Exclusion
pub mod Seen
pub mod Refines
pub mod Stale
use logger_verifier.Logger.Pictures.{Mat}
use logger_verifier.Logger.Pipeline.{Queues, Vision, Grab, keep_frame}
use logger_verifier.Base.{ℕ, ◌≡◌, true, false, List, [], ◌∷◌, ◌==◌, if◌then◌else◌, length}

-- The thread of `UpdateFrame`: before `cap >> tempFrame`, before the lock, and with the lock before
-- and after the assignment. `pthread_cancel` ends it at the first, which is its one call that a
-- cancellation can interrupt.
pub data Updater : Type 0 where
  reading stored ended : Updater
  taken locked : Mat → Updater

-- `capture`: before the lock, with it before and after the assignment, behind it, and in front of
-- `pthread_cancel` after the frame was looked at.
pub data Capturer : Type 0 where
  waiting holding done : Capturer
  copied judging : Mat → Capturer
  stopping : Grab → Capturer

-- Who holds `frameLocker`.
pub data Locker : Type 0 where
  free by_updater by_capturer : Locker

-- `delivered` is not of the program: every frame there was, the last one first.
pub record System : Type 0 where
  pub frame : Mat
  pub locker : Locker
  pub updater : Updater
  pub capturer : Capturer
  pub queues : Queues
  pub delivered : List Mat

-- `capture` has created the lock and the thread; `frame` is what an earlier call has left in it.
unfoldable pub begin : Mat → Queues → System
begin frame q = record {
  frame = frame;
  locker = free;
  updater = reading;
  capturer = waiting;
  queues = q;
  delivered = frame ∷ [];
}

module _ (V : Vision) (frame_count : ℕ) where
  -- Where `capture` goes on once the frame was looked at.
  unfoldable pub after_frame : Grab → Queues → Capturer
  after_frame g q = if length q.bgr_queue == frame_count then stopping g else waiting

  pub data Step (s : System) : System → Type 0 where
    read :
        (p : Mat)
        → s.updater ≡ reading
        → Step s (record s { updater = taken p; delivered = p ∷ s.delivered })
    lock :
        (p : Mat)
        → s.updater ≡ taken p
        → s.locker ≡ free
        → Step s (record s { updater = locked p; locker = by_updater })
    store : (p : Mat) → s.updater ≡ locked p → Step s (record s { updater = stored; frame = p })
    unlock : s.updater ≡ stored → Step s (record s { updater = reading; locker = free })
    capture_lock :
        s.capturer ≡ waiting
        → s.locker ≡ free
        → Step s (record s { capturer = holding; locker = by_capturer })
    copy : s.capturer ≡ holding → Step s (record s { capturer = copied s.frame })
    capture_unlock :
        (p : Mat)
        → s.capturer ≡ copied p
        → Step s (record s { capturer = judging p; locker = free })
    judge :
        (g : Grab)
        → s.capturer ≡ judging g.picture
        → Step s (record s {
          capturer = after_frame g (keep_frame V g s.queues);
          queues = keep_frame V g s.queues;
        })
    cancel_fails :
        (g : Grab)
        → s.capturer ≡ stopping g
        → g.cancelled ≡ false
        → Step s (record s { capturer = waiting })
    cancel :
        (g : Grab)
        → s.capturer ≡ stopping g
        → g.cancelled ≡ true
        → s.updater ≡ reading
        → Step s (record s { capturer = done; updater = ended })

  pub data Reach (first : System) : System → Type 0 where
    start : Reach first first
    later : {s s' : System} → Reach first s → Step s s' → Reach first s'
