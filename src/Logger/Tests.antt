-- ===== src/Logger/Tests.antt =====
-- The logger at concrete inputs.
use logger_verifier.Base.Decimal.{decimal}
use logger_verifier.Logger.Delivery.{Frame}
use logger_verifier.Logger.Pictures.{
  Mat, mat_data, IsGray, IsEdge, mat_data-decimals, mat_data-injective,
}
use logger_verifier.Logger.Pipeline.{
  Queues, Vision, Grab, main_round, capture, keep_frame, detect_edges, make_hash, sign_hash,
  sign_all,
}
use logger_verifier.Logger.Rounds.{IsFresh, IsRound, main_round-hashes}
use logger_verifier.Logger.Upload.{Memory}
use logger_verifier.Wire.Pipe.{PipeWorld}
use logger_verifier.Wire.Transfer.{IoPort}
use logger_verifier.Base.{
  ℕ, ◌+◌, ◌≡◌, refl, inl, inr, true, false, some, [], ◌∷◌, length, codes, All,
}

abbrev edges : Mat
edges = record { rows = 2; cols = 2; channels = 1; bytes = 0 ∷ 255 ∷ 255 ∷ 0 ∷ [] }

edges-IsGray : IsGray edges
edges-IsGray = record { one_channel = refl; full = refl }

edges_text : mat_data edges ≡ codes "02552550"
unfolding decimal
edges_text = mat_data-decimals edges edges-IsGray

edges-IsEdge : All IsEdge edges.bytes
edges-IsEdge = (inl refl, (inr refl, (inr refl, (inl refl, tt))))

same_edges : edges.bytes ≡ edges.bytes
same_edges = mat_data-injective edges edges edges-IsGray edges-IsGray edges-IsEdge edges-IsEdge refl

-- Pictures with other bytes may have one text.
abbrev dark : ℕ → ℕ → Mat
dark a b = record { rows = 1; cols = 2; channels = 1; bytes = a ∷ b ∷ [] }

one_text : mat_data (dark 1 11) ≡ mat_data (dark 11 1)
unfolding mat_data decimal
one_text = refl

abbrev port : IoPort
port = record { port_type = 0; s = 4; timeout = 30 }

abbrev memory : Memory
memory = record { capacity = length; usable = λ n. n + 1 }

abbrev frame : ℕ → Frame
frame b = record {
  cid = 65 ∷ 66 ∷ [];
  hash = b ∷ [];
  signed_hash = 67 ∷ 68 ∷ 69 ∷ [];
  picture = dark b b;
}

abbrev empty_pipe : PipeWorld
empty_pipe = record { incoming = []; outgoing = []; chunk = 3 }

abbrev vision : Vision
vision = record {
  element_mean = λ m. length m.bytes;
  to_yuv420 = λ m. m;
  yuv420_to_gray = λ m. m;
  to_gray = λ m. m;
  canny = λ m. m;
  hash_sha256 = λ text. text;
  sign_message = λ text. some text;
  signed_hash_bufsize = 350;
}

abbrev fresh : Queues
fresh = record {
  bgr_queue = [];
  yuv420_queue = [];
  y_queue = [];
  gray_queue = edges ∷ [];
  feature_vector_queue = [];
  hash_queue = [];
  hash_signed_queue = [];
  cid_queue = [];
}

fresh-IsFresh : IsFresh fresh
fresh-IsFresh = record {
  no_bgr = refl;
  no_yuv420 = refl;
  no_y = refl;
  no_feature_vector = refl;
  no_hash = refl;
  no_signed = refl;
  no_cid = refl;
}

abbrev grab : Grab
grab = record { picture = edges; cid = codes "c"; cancelled = true }

-- A grab before the camera's thread has stored a picture.
abbrev no_grab : Grab
no_grab = record { picture = record edges { bytes = [] }; cid = codes "b"; cancelled = true }

abbrev after_round : Queues
after_round = record {
  bgr_queue = [];
  yuv420_queue = [];
  y_queue = [];
  gray_queue = edges ∷ edges ∷ [];
  feature_vector_queue = edges ∷ [];
  hash_queue = codes "02552550" ∷ [];
  hash_signed_queue = codes "02552550" ∷ [];
  cid_queue = codes "c" ∷ [];
}

round_runs : main_round vision false 1 (no_grab ∷ grab ∷ []) fresh ≡ some after_round
unfolding main_round capture keep_frame detect_edges make_hash sign_hash sign_all mat_data decimal
round_runs = refl

main_round-hashes_example : IsRound vision false 1 (no_grab ∷ grab ∷ []) after_round
main_round-hashes_example =
    main_round-hashes vision false 1 (no_grab ∷ grab ∷ []) fresh after_round fresh-IsFresh
      round_runs
