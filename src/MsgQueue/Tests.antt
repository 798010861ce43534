-- ===== src/MsgQueue/Tests.antt =====
-- The message queues at concrete inputs: one queue for every key, which counts its answers.
use logger_verifier.Base.Decimal.{pos, negsuc}
use logger_verifier.MsgQueue.{
  Queues, Camera, camera_cfg_recv, apply_cfg, int_value, send_answer, image_hash_request,
  image_hash_response, type_camera_cfg,
}
use logger_verifier.MsgQueue.Settings.{cfg_message, camera_cfg_recv-applies}
use logger_verifier.Base.{ℕ, ◌+◌, ◌≡◌, refl, true, Option, none, some, List, [], arith}

-- A message waits, or none; and the number of messages that were sent.
abbrev toy_queues : Queues
toy_queues = record {
  World = Option (ℕ × List ℕ) × ℕ;
  msgget = λ key w. some (some key, w);
  msgrcv = λ id size w. some (w.0, (none, w.1));
  msgsnd = λ id type bytes w. some (true, (w.0, w.1 + 1));
  rest = [];
}

abbrev camera : Camera
camera = record { width = 640; height = 480; fps = pos 20 }

camera_cfg_recv-applies_example :
    (cam' : Camera) × (camera_cfg_recv toy_queues camera
        (some (type_camera_cfg, cfg_message 2 33 (pos 300)), 0)
      ≡ some (cam', (none, 1)))
    × (cam'.fps ≡ pos 300)
    × ◌≡◌ {A = ℕ × ℕ} (cam'.width, cam'.height) (1280, 720)
camera_cfg_recv-applies_example =
    camera_cfg_recv-applies toy_queues camera 2 33 (pos 300) 1129 1130
      (some (type_camera_cfg, cfg_message 2 33 (pos 300)), 0)
      (some (type_camera_cfg, cfg_message 2 33 (pos 300)), 0) (none, 0) (none, 0) (none, 1)
      (omega arith) refl refl refl refl

-- A rate of -2.
negative_rate : int_value 254 255 255 255 ≡ negsuc 1
unfolding int_value
negative_rate = refl

-- Without a message the camera stays; with one of another type the size is indeterminate.
no_message : camera_cfg_recv toy_queues camera (none, 0) ≡ some (camera, (none, 0))
unfolding camera_cfg_recv
no_message = refl

other_message : camera_cfg_recv toy_queues camera (some (4, []), 0) ≡ none
unfolding camera_cfg_recv apply_cfg
other_message = refl

hash_requested : image_hash_request toy_queues (some (3, []), 0) ≡ some (pos 1, (none, 0))
unfolding image_hash_request
hash_requested = refl

hash_answered : image_hash_response toy_queues (none, 0) ≡ some (tt, (none, 1))
unfolding image_hash_response send_answer
hash_answered = refl
