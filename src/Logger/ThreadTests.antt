-- ===== src/Logger/ThreadTests.antt =====
-- A run of the two threads of the capture, and their theorems at it.
use mathlib.Core.List.{Memᴰ}
use logger_verifier.Logger.Pictures.{Mat}
use logger_verifier.Logger.Pipeline.{Queues, Vision, Grab, keep_frame, capture}
use logger_verifier.Logger.Threads.{
  ended, done, free, System, begin, after_frame, read, lock, store, unlock, capture_lock, copy,
  capture_unlock, judge, cancel, Reach, start, later,
}
use logger_verifier.Logger.Threads.Refines.{capture_threads-refine}
use logger_verifier.Logger.Threads.Stale.{capture_repeats}
use logger_verifier.Base.{
  ◌≡◌, refl, true, some, List, [], ◌∷◌, arith, length, replicate, codes, All,
}

abbrev dark : Mat
dark = record { rows = 0; cols = 0; channels = 3; bytes = [] }

abbrev lit : Mat
lit = record { rows = 1; cols = 1; channels = 3; bytes = 1 ∷ 2 ∷ 3 ∷ [] }

abbrev grab : Mat → Grab
grab m = record { picture = m; cid = codes "c"; cancelled = true }

abbrev vision : Vision
vision = record {
  element_mean = λ m. length m.bytes;
  to_yuv420 = λ m. m;
  yuv420_to_gray = λ m. m;
  to_gray = λ m. m;
  canny = λ m. m;
  hash_sha256 = λ text. text;
  sign_message = λ text. some text;
  signed_hash_bufsize = 350;
}

abbrev empty : Queues
empty = record {
  bgr_queue = [];
  yuv420_queue = [];
  y_queue = [];
  gray_queue = [];
  feature_vector_queue = [];
  hash_queue = [];
  hash_signed_queue = [];
  cid_queue = [];
}

abbrev finished : System
finished = record {
  frame = lit;
  locker = free;
  updater = ended;
  capturer = done;
  queues = record empty { bgr_queue = lit ∷ []; cid_queue = codes "c" ∷ [] };
  delivered = lit ∷ lit ∷ dark ∷ [];
}

-- The first look finds no frame; the camera's thread reads a second one while `capture` has the
-- lock, and is cancelled only after it has stored it.
run : Reach vision 1 (begin dark empty) finished
unfolding begin after_frame keep_frame
run =
    later
      (later
        (later
          (later
            (later
              (later
                (later
                  (later
                    (later
                      (later
                        (later
                          (later
                            (later
                              (later
                                (later (later (later start (capture_lock refl refl)) (copy refl))
                                  (capture_unlock dark refl))
                                (judge (grab dark) refl))
                              (read lit refl))
                            (lock lit refl refl))
                          (store lit refl))
                        (unlock refl))
                      (capture_lock refl refl))
                    (copy refl))
                  (read lit refl))
                (capture_unlock lit refl))
              (judge (grab lit) refl))
            (lock lit refl refl))
          (store lit refl))
        (unlock refl))
      (cancel (grab lit) refl refl refl)

capture_threads-refine_example :
    (gs : List Grab) × All (λ g. Memᴰ g.picture finished.delivered) gs
    × (capture vision 1 gs empty ≡ some finished.queues)
    × (finished.locker ≡ free)
capture_threads-refine_example = capture_threads-refine vision 1 dark empty run refl

capture_repeats_example :
    (s : System) × Reach vision 3 (begin dark empty) s
    × (s.capturer ≡ done)
    × (s.queues.bgr_queue ≡ replicate 3 lit)
    × (s.delivered ≡ lit ∷ dark ∷ [])
capture_repeats_example =
    capture_repeats vision 3 dark lit (codes "c") empty (omega arith) (omega arith) refl
      (omega arith)
