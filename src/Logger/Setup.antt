-- ===== src/Logger/Setup.antt =====
-- What surrounds the pipeline in Logger/Logger.cpp: the camera's settings (`open_camera`,
-- `lamping_time`, `init`), the loop of `main`, and `send_image_hash_to_UI`. `none` is undefined
-- behaviour or the end of the program.
use logger_verifier.Base.Decimal.{ℤ, pos, negsuc}
use logger_verifier.Config.{TextPointer, null, dangling, kept}
use logger_verifier.Base.Run.{Run, pure, fault, ◌>>=◌, ◌>>◌}
use logger_verifier.Logger.Pictures.{Mat}
use logger_verifier.Logger.Pipeline.{Queues, Vision, Grab, main_round, init_queue}
use logger_verifier.MsgQueue as MsgQueue
use logger_verifier.MsgQueue.{Camera, camera_cfg_recv, image_hash_request, image_hash_response}
use logger_verifier.Base.{
  ℕ, ◌+◌, ◌*◌, Bool, true, false, Option, none, some, List, [], ◌∷◌, ◌++◌, ◌==◌, if◌then◌else◌,
  replicate,
}

-- What `cv::imwrite` does with a name and a picture: it throws, as on a name without a known
-- extension, returns false, or writes bytes.
pub data Written : Type 0 where
  thrown not_written : Written
  written : List ℕ → Written

-- The capture device and the files. `opened` is `cap.isOpened()`; `can_open` tells whether a file
-- can be opened. The last two paths are pointers, as Read_Logger_cfg leaves them.
pub record Desk : Type 0 where
  pub opened : Bool
  pub encode : List ℕ → Mat → Written
  pub can_open : List ℕ → Bool
  pub orifile_path : List ℕ
  pub yfile_path : TextPointer
  pub hashfile_path : TextPointer

-- The queues, the settings, what `cap.set` was last given, the queues of the system, the number of
-- frames that were read and thrown away, the files written, in their order, and the global `frame`
-- as `init` leaves it: what the camera's thread stores in it later is in the grabs of a turn.
pub record LoggerState (Q : MsgQueue.Queues) : Type 0 where
  pub queues : Queues
  pub camera : Camera
  pub requested : Camera
  pub mq : Q.World
  pub skipped : ℕ
  pub files : List (List ℕ × List ℕ)
  pub frame : Mat

-- `cv::Mat img(cv::Size(width, height), CV_8UC3, Scalar(0))`
abbrev pub black_picture : Camera → Mat
black_picture c = record {
  rows = c.height;
  cols = c.width;
  channels = 3;
  bytes = replicate (c.height * c.width * 3) 0;
}

-- The bytes that a pointer leads to; reading a NULL or dangling one is undefined.
unfoldable pub pointed : TextPointer → Option (List ℕ)
pointed null = none
pointed dangling = none
pointed (kept text) = some text

-- The rounds of the loop of `lamping_time`.
abbrev pub lamping_rounds : ℕ
lamping_rounds = 20

module _ (V : Vision) (Q : MsgQueue.Queues) (K : Desk) where
  abbrev pub State : Type 0
  State = LoggerState Q

  unfoldable pub on_messages : {A : Type 0} → Run Q.World A → Run State A
  on_messages m st = elim (m st.mq) [ none ↦ none | some (a, w) ↦ some (a, record st { mq = w }) ]

  unfoldable pub on_queues : (Queues → Option Queues) → Run State (Unit {0})
  on_queues f st = elim (f st.queues) [ none ↦ none | some q ↦ some (tt, record st { queues = q }) ]

  -- The program ends where the camera does not open.
  unfoldable pub open_camera : Run State (Unit {0})
  open_camera = if K.opened then pure tt else fault

  unfoldable pub lamping_time : Run State (Unit {0})
  lamping_time st = some (tt, record st { skipped = st.skipped + lamping_rounds })

  -- -1 where the camera is not open; by then the settings have been asked for, and `frame` is a
  -- black picture of the new size.
  unfoldable pub init : Run State ℤ
  unfolding on_messages
  init st = elim (on_messages (camera_cfg_recv Q st.camera) st) [
    | none ↦ none
    | some (camera, st') ↦ some (
      if K.opened then pos 0 else negsuc 0,
      record st' { camera = camera; requested = camera; frame = black_picture camera },
    )
  ]

  -- A turn of the loop of `main`, `false` where it breaks.
  unfoldable pub main_turn : Bool → ℕ → List Grab → Run State Bool
  main_turn yuv_switch frame_count gs = do
    ok ← init
    elim ok [
      | pos n ↦ do
        on_queues (main_round V yuv_switch frame_count gs)
        on_queues (λ q. some (init_queue V q))
        pure true
      | negsuc n ↦ pure false
    ]

  -- The first turns of the loop, what the camera's thread stores in each being given.
  unfoldable pub main_turns : Bool → ℕ → List (List Grab) → Run State (Unit {0})
  unfolding main_turn
  main_turns yuv_switch frame_count [] = pure tt
  main_turns yuv_switch frame_count (gs ∷ turns) = do
    ok ← main_turn yuv_switch frame_count gs
    elim ok [ true ↦ main_turns yuv_switch frame_count turns | false ↦ pure tt ]

  -- `main`, where `YUV_switch` is false.
  unfoldable pub logger_main : ℕ → List (List Grab) → Run State (Unit {0})
  unfolding open_camera lamping_time main_turns
  logger_main frame_count turns = do open_camera; lamping_time; main_turns false frame_count turns

  -- The result is not looked at, and what it throws is not caught.
  unfoldable pub imwrite : List ℕ → Mat → Run State (Unit {0})
  imwrite name picture st = elim (K.encode name picture) [
    | thrown ↦ none
    | not_written ↦ some (tt, st)
    | written bytes ↦ some (tt, record st { files = st.files ++ (name, bytes) ∷ [] })
  ]

  -- `imwrite` with the name that a pointer leads to.
  unfoldable pub imwrite_to : TextPointer → Mat → Run State (Unit {0})
  unfolding pointed imwrite
  imwrite_to path picture st = elim (pointed path) [
    | none ↦ none
    | some name ↦ imwrite name picture st
  ]

  -- The hash and a newline, in a file that is emptied first.
  unfoldable pub write_hash : List ℕ → Run State (Unit {0})
  unfolding pointed
  write_hash hash st = elim (pointed K.hashfile_path) [
    | none ↦ none
    | some name ↦
        if K.can_open name
        then some (tt, record st { files = st.files ++ (name, hash ++ 10 ∷ []) ∷ [] })
        else some (tt, st)
  ]

  -- The fronts of the two queues are copied before the request is looked for.
  unfoldable pub send_image_hash_to_ui : List Mat → List Mat → Run State (Unit {0})
  send_image_hash_to_ui (ori ∷ ori_queue) (y ∷ y_queue) st =
      elim (on_messages (image_hash_request Q) st) [
        | none ↦ none
        | some (asked, st') ↦ elim asked [
          | pos n ↦
              if n == 1
              then elim st'.queues.hash_queue [
                | [] ↦ none
                | hash ∷ hashes ↦
                    (imwrite K.orifile_path ori
                        >> imwrite_to K.yfile_path y
                        >> write_hash hash
                        >> on_messages (image_hash_response Q))
                      st'
              ]
              else some (tt, st')
          | negsuc n ↦ some (tt, st')
        ]
      ]
  send_image_hash_to_ui _ _ st = none
