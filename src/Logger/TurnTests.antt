-- ===== src/Logger/TurnTests.antt =====
-- The loop of the logger and its answer to the Web UI at concrete inputs: pictures of one byte, a
-- camera that is open, and one message queue, in which a message may wait.
use logger_verifier.Base.Decimal.{pos}
use logger_verifier.Config.{dangling}
use logger_verifier.Logger.Pictures.{Mat}
use logger_verifier.Logger.Pipeline.{
  Queues, Vision, Grab, capture, keep_frame, detect_edges, make_hash, sign_hash, sign_all,
  main_round, init_queue,
}
use logger_verifier.Logger.Rounds.{IsFresh}
use logger_verifier.Logger.Setup.{
  Desk, State, written, black_picture, open_camera, lamping_time, init, on_queues, on_messages,
  main_turn, main_turns, logger_main, send_image_hash_to_ui,
}
use logger_verifier.Logger.Turns.{logger_main-grows}
use logger_verifier.Logger.WebUi.{send_image_hash_to_ui-undefined}
use logger_verifier.MsgQueue as MsgQueue
use logger_verifier.MsgQueue.{camera_cfg_recv}
use logger_verifier.Base.{
  ℕ, ◌+◌, ◌*◌, ◌≡◌, refl, true, Option, none, some, List, [], ◌∷◌, length, codes,
}

abbrev toy_queues : MsgQueue.Queues
toy_queues = record {
  World = Option (ℕ × List ℕ) × ℕ;
  msgget = λ key w. some (some key, w);
  msgrcv = λ id size w. some (w.0, (none, w.1));
  msgsnd = λ id type bytes w. some (true, (w.0, w.1 + 1));
  rest = [];
}

abbrev vision : Vision
vision = record {
  element_mean = λ m. length m.bytes;
  to_yuv420 = λ m. m;
  yuv420_to_gray = λ m. m;
  to_gray = λ m. m;
  canny = λ m. m;
  hash_sha256 = λ text. codes "beef";
  sign_message = λ text. some text;
  signed_hash_bufsize = 350;
}

abbrev desk : Desk
desk = record {
  opened = true;
  encode = λ name m. written m.bytes;
  can_open = λ name. true;
  orifile_path = codes "ori";
  yfile_path = dangling;
  hashfile_path = dangling;
}

abbrev dot : Mat
dot = record { rows = 1; cols = 1; channels = 1; bytes = 255 ∷ [] }

abbrev no_frames : Queues
no_frames = record {
  bgr_queue = [];
  yuv420_queue = [];
  y_queue = [];
  gray_queue = [];
  feature_vector_queue = [];
  hash_queue = [];
  hash_signed_queue = [];
  cid_queue = [];
}

no_frames-IsFresh : IsFresh no_frames
no_frames-IsFresh = record {
  no_bgr = refl;
  no_yuv420 = refl;
  no_y = refl;
  no_feature_vector = refl;
  no_hash = refl;
  no_signed = refl;
  no_cid = refl;
}

abbrev grab : Grab
grab = record { picture = dot; cid = codes "c"; cancelled = true }

abbrev camera : MsgQueue.Camera
camera = record { width = 1; height = 1; fps = pos 20 }

abbrev start : State vision toy_queues desk
start = record {
  queues = no_frames;
  camera = camera;
  requested = record camera { fps = pos 0 };
  mq = (none, 0);
  skipped = 0;
  files = [];
  frame = dot;
}

-- Two turns later.
abbrev later : State vision toy_queues desk
later = record start {
  queues = record no_frames { gray_queue = dot ∷ dot ∷ [] };
  requested = camera;
  skipped = 20;
  frame = black_picture camera;
}

two_turns :
    logger_main vision toy_queues desk 1 ((grab ∷ []) ∷ (grab ∷ []) ∷ []) start ≡ some (tt, later)
unfolding logger_main open_camera lamping_time main_turns main_turn init on_messages on_queues
    camera_cfg_recv main_round capture keep_frame detect_edges make_hash sign_hash sign_all
    init_queue
two_turns = refl

logger_main-grows_example : IsFresh later.queues × (length later.queues.gray_queue ≡ 0 + 2 * 1)
logger_main-grows_example =
    logger_main-grows vision toy_queues desk refl 1 ((grab ∷ []) ∷ (grab ∷ []) ∷ []) start later
      no_frames-IsFresh two_turns

abbrev asked : State vision toy_queues desk
asked = record start {
  queues = record no_frames { hash_queue = codes "beef" ∷ [] };
  mq = (some (3, []), 0);
}

no_y_path : send_image_hash_to_ui vision toy_queues desk (dot ∷ []) (dot ∷ []) asked ≡ none
no_y_path =
    send_image_hash_to_ui-undefined vision toy_queues desk dot dot [] [] 1131 [] asked
      (some (3, []), 0) (none, 0) refl refl refl

-- Without `YUV_switch` there is no Y picture, so the call that `main` has as a comment would read
-- the front of an empty queue.
no_y_picture : send_image_hash_to_ui vision toy_queues desk (dot ∷ []) [] asked ≡ none
unfolding send_image_hash_to_ui
no_y_picture = refl
