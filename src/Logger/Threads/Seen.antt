-- ===== src/Logger/Threads/Seen.antt =====
-- Every frame that the threads of the capture hold was delivered by the camera.
use mathlib.Core.List.{Memᴰ}
use logger_verifier.Logger.Pictures.{Mat}
use logger_verifier.Logger.Pipeline.{Queues, Vision, Grab, keep_frame}
use logger_verifier.Logger.Threads.{
  Updater, taken, locked, Capturer, copied, judging, stopping, System, after_frame, Step, read,
  lock, store, unlock, capture_lock, copy, capture_unlock, judge, cancel_fails, cancel,
}
use logger_verifier.Base.{ℕ, refl, subst, inl, inr, List, [], ◌∷◌, ◌==◌, Bool-cases, length, All}

-- The frames that a thread has in hand.
unfoldable pub in_hand : Updater → List Mat
in_hand (taken p) = p ∷ []
in_hand (locked p) = p ∷ []
in_hand _ = []

unfoldable pub looked_at : Capturer → List Mat
looked_at (copied p) = p ∷ []
looked_at (judging p) = p ∷ []
looked_at (stopping g) = g.picture ∷ []
looked_at _ = []

-- Each of them was delivered.
unfoldable pub IsDelivered : List Mat → List Mat → Type 0
IsDelivered delivered = All (λ p. Memᴰ p delivered)

-- Every frame in the program was delivered.
unfoldable pub IsSeen : System → Type 0
IsSeen s =
    Memᴰ s.frame s.delivered
    × IsDelivered s.delivered (in_hand s.updater)
    × IsDelivered s.delivered (looked_at s.capturer)

pub delivered_later :
    {A : Type 0} (picture : A → Mat) (p : Mat) (delivered : List Mat) (xs : List A)
    → All (λ x. Memᴰ (picture x) delivered) xs
    → All (λ x. Memᴰ (picture x) (p ∷ delivered)) xs
delivered_later picture p delivered [] h = tt
delivered_later picture p delivered (x ∷ xs) h =
    (Memᴰ.tail h.0, delivered_later picture p delivered xs h.1)

module _ (V : Vision) (frame_count : ℕ) where
  after_frame-seen :
      (g : Grab) (q : Queues) (delivered : List Mat)
      → Memᴰ g.picture delivered
      → IsDelivered delivered (looked_at (after_frame V frame_count g q))
  unfolding after_frame looked_at IsDelivered
  after_frame-seen g q delivered m = elim (Bool-cases (length q.bgr_queue == frame_count)) [
    | inl e ↦ rw (e) (m, tt)
    | inr e ↦ rw (e) tt
  ]

  pub Step-IsSeen : {s s' : System} → Step V frame_count s s' → IsSeen s → IsSeen s'
  unfolding IsSeen in_hand looked_at IsDelivered
  Step-IsSeen {s} (read p e) (f, u, c) = (
    Memᴰ.tail f,
    (Memᴰ.head refl, tt),
    delivered_later (λ x. x) p s.delivered (looked_at s.capturer) c,
  )
  Step-IsSeen {s} (lock p e l) (f, u, c) =
      (f, subst (λ x. IsDelivered s.delivered (in_hand x)) e u, c)
  Step-IsSeen {s} (store p e) (f, u, c) =
      ((subst (λ x. IsDelivered s.delivered (in_hand x)) e u).0, tt, c)
  Step-IsSeen (unlock e) (f, u, c) = (f, tt, c)
  Step-IsSeen (capture_lock e l) (f, u, c) = (f, u, tt)
  Step-IsSeen (copy e) (f, u, c) = (f, u, (f, tt))
  Step-IsSeen {s} (capture_unlock p e) (f, u, c) =
      (f, u, subst (λ x. IsDelivered s.delivered (looked_at x)) e c)
  Step-IsSeen {s} (judge g e) (f, u, c) = (
    f,
    u,
    after_frame-seen g (keep_frame V g s.queues) s.delivered
        (subst (λ x. IsDelivered s.delivered (looked_at x)) e c).0,
  )
  Step-IsSeen (cancel_fails g e b) (f, u, c) = (f, u, tt)
  Step-IsSeen (cancel g e b r) (f, u, c) = (f, tt, tt)
