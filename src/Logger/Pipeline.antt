-- ===== src/Logger/Pipeline.antt =====
-- The queues of Logger/Logger.cpp and the steps of its main loop. A queue is the list of what it
-- holds, the front first. `none` is undefined behaviour: the front of an empty queue, a text that
-- is longer than its buffer, and in `capture` a loop that still waits for frames.
use logger_verifier.Logger.Pictures.{Mat, mat_data}
use logger_verifier.Base.{
  ℕ, Bool, true, false, ◌&&◌, Option, none, some, List, [], ◌∷◌, ◌++◌, map, ltb, ◌==◌,
  if◌then◌else◌, length,
}

pub record Queues : Type 0 where
  pub bgr_queue : List Mat
  pub yuv420_queue : List Mat
  pub y_queue : List Mat
  pub gray_queue : List Mat
  pub feature_vector_queue : List Mat
  pub hash_queue : List (List ℕ)
  pub hash_signed_queue : List (List ℕ)
  pub cid_queue : List (List ℕ)

-- What the logger calls of OpenCV, `hash_sha256` and `signMessage` with the private key, and
-- SIGNED_HASH_BUFSIZE of its configuration. `element_mean` is the `elementmean` of `capture`.
-- `signMessage` gives nothing where its run is undefined, as on a text that is no key; Signing
-- models its body.
pub record Vision : Type 0 where
  pub element_mean : Mat → ℕ
  pub to_yuv420 : Mat → Mat
  pub yuv420_to_gray : Mat → Mat
  pub to_gray : Mat → Mat
  pub canny : Mat → Mat
  pub hash_sha256 : List ℕ → List ℕ
  pub sign_message : List ℕ → Option (List ℕ)
  pub signed_hash_bufsize : ℕ

-- One turn of the loop of `capture`: the frame that the camera's thread has last stored, what
-- `getCID` would return, and whether cancelling that thread succeeds.
pub record Grab : Type 0 where
  pub picture : Mat
  pub cid : List ℕ
  pub cancelled : Bool

module _ (V : Vision) where
  -- An empty frame and a black one are passed over.
  unfoldable pub keep_frame : Grab → Queues → Queues
  keep_frame g q =
      if length g.picture.bytes == 0
      then q
      else if V.element_mean g.picture == 0
      then q
      else record q {
        bgr_queue = q.bgr_queue ++ g.picture ∷ [];
        cid_queue = q.cid_queue ++ g.cid ∷ [];
      }

  unfoldable pub capture : ℕ → List Grab → Queues → Option Queues
  unfolding keep_frame
  capture frame_count [] q = none
  capture frame_count (g ∷ gs) q =
      let q' = keep_frame g q in
      let later = capture frame_count gs q' in
      if length q'.bgr_queue == frame_count && g.cancelled then some q' else later

  unfoldable pub convert_frames2_yuv : Queues → Queues
  convert_frames2_yuv q = record q {
    yuv420_queue = q.yuv420_queue ++ map V.to_yuv420 q.bgr_queue;
    y_queue = q.y_queue ++ map (λ m. V.yuv420_to_gray (V.to_yuv420 m)) q.bgr_queue;
  }

  -- Without the pictures that it writes to files.
  unfoldable pub convert_frames2gray : Queues → Queues
  convert_frames2gray q = record q { gray_queue = q.gray_queue ++ map V.to_gray q.bgr_queue }

  unfoldable pub edge_detection_yuv : Queues → Queues
  edge_detection_yuv q = record q {
    feature_vector_queue = q.feature_vector_queue ++ map V.canny q.y_queue;
  }

  -- It copies its argument and does not use the copy: it takes the frames off `bgr_queue`.
  unfoldable pub edge_detection_bgr : Queues → Queues
  edge_detection_bgr q = record q {
    feature_vector_queue = q.feature_vector_queue ++ map V.canny q.bgr_queue;
    bgr_queue = [];
  }

  unfoldable pub make_hash : Queues → Option Queues
  unfolding mat_data
  make_hash q = elim q.feature_vector_queue [
    | [] ↦ none
    | m ∷ ms ↦
        some
          (record q { hash_queue = q.hash_queue ++ map (λ m. V.hash_sha256 (mat_data m)) (m ∷ ms) })
  ]

  -- The loop of `sign_hash`: each signed hash is also copied to a buffer, with its NUL.
  unfoldable pub sign_all : List (List ℕ) → Option (List (List ℕ))
  sign_all [] = some []
  sign_all (h ∷ hs) =
      let later = sign_all hs in
      elim (V.sign_message h) [
        | none ↦ none
        | some signed ↦
            if ltb (length signed) V.signed_hash_bufsize
            then elim later [ none ↦ none | some ss ↦ some (signed ∷ ss) ]
            else none
      ]

  unfoldable pub sign_hash : Queues → Option Queues
  unfolding sign_all
  sign_hash q = elim (sign_all q.hash_queue) [
    | none ↦ none
    | some ss ↦ some (record q { hash_signed_queue = q.hash_signed_queue ++ ss })
  ]

  -- It leaves `G_queue` as it is.
  unfoldable pub init_queue : Queues → Queues
  init_queue q = record q {
    yuv420_queue = [];
    bgr_queue = [];
    y_queue = [];
    feature_vector_queue = [];
    hash_queue = [];
    hash_signed_queue = [];
    cid_queue = [];
  }

  -- `init_all_settings`, with the sizes that it prints.
  unfoldable pub init_all_settings : Queues → Queues × List ℕ
  unfolding init_queue
  init_all_settings q =
      let r = init_queue q in
      (
        r,
        length r.bgr_queue
            ∷ length r.yuv420_queue
            ∷ length r.y_queue
            ∷ length r.feature_vector_queue
            ∷ length r.hash_queue
            ∷ length r.cid_queue
            ∷ [],
      )

  -- The branch on `YUV_switch`.
  unfoldable pub detect_edges : Bool → Queues → Queues
  unfolding convert_frames2_yuv convert_frames2gray edge_detection_yuv edge_detection_bgr
  detect_edges true q = edge_detection_yuv (convert_frames2_yuv q)
  detect_edges false q = edge_detection_bgr (convert_frames2gray q)

  -- One turn of the loop of `main` without what follows `sign_hash`.
  unfoldable pub main_round : Bool → ℕ → List Grab → Queues → Option Queues
  unfolding capture detect_edges make_hash sign_hash
  main_round yuv_switch frame_count gs q = elim (capture frame_count gs q) [
    | none ↦ none
    | some captured ↦ elim (make_hash (detect_edges yuv_switch captured)) [
      | none ↦ none
      | some hashed ↦ sign_hash hashed
    ]
  ]
