-- ===== src/Session/RecheckTests.antt =====
-- A CIF frame on its way to the verifier. The toy
-- OpenCV leaves pictures as they are, and every text has the hash that its first byte gives.
use logger_verifier.Base.Decimal.{pos, negsuc}
use logger_verifier.Database.Queries.{perform_query}
use logger_verifier.Database.Scripted.{scripted}
use logger_verifier.Database.Sessions.{script}
use logger_verifier.Logger.Delivery.{Frame}
use logger_verifier.Logger.Pictures.{Mat, mat_data}
use logger_verifier.Logger.Pipeline.{Vision}
use logger_verifier.Logger.Upload.{video_header}
use logger_verifier.Server.Dispatch.{cmd_parser}
use logger_verifier.Server.Sample.{environment}
use logger_verifier.Server.State.{State}
use logger_verifier.Server.Stored.{IsFrame, HasRoom, stored_state}
use logger_verifier.Session.Rechecked.{last_written, SameStorage, delivered_frame-refused}
use logger_verifier.Session.Transfer.{server_sizes}
use logger_verifier.Session.Verification.{gray, SameCalls, IsStored, cif_frame}
use logger_verifier.Verifier.Check.{
  Globals, first_globals, hash_text, substr, table_name, read_row, last_hash, get_data_from_db,
  read_video_data, convert_frames, edge_detection, compare_hash, verify,
}
use logger_verifier.Verifier.Check as Checker
use logger_verifier.Verifier.Verdict.{read_video_data-keeps}
use logger_verifier.Wire.Packet.{header_bytes, make_packet, read_header}
use logger_verifier.Wire.Pipe.{pipe}
use logger_verifier.Wire.Transfer.{IoPort}
use logger_verifier.Base.{
  ℕ, zero, suc, ◌+◌, ◌≡◌, refl, ap, ◌≢◌, true, Option, none, some, List, [], ◌∷◌, ◌++◌, arith, ◌==◌,
  if◌then◌else◌, length, get_or, replicate, length-replicate, codes, All, NoNul,
}

abbrev pub port : IoPort
port = record { port_type = 0; s = 4; timeout = 30 }

abbrev pub state : List ℕ → State pipe scripted environment
state incoming = record {
  net = record { incoming = incoming; outgoing = []; chunk = 100 };
  db = script [] [];
  res_packet = make_packet 0 0 0 0;
  test_shares = [];
  files = [];
  draws = 0;
}

-- The bytes of a CIF frame.
flat : ℕ → List ℕ
flat byte = replicate 152064 byte

length-flat : (byte : ℕ) → length (flat byte) ≡ 152064
unfolding flat
length-flat byte = length-replicate 152064 byte

replicate-All : (P : ℕ → Type 0) (n byte : ℕ) → P byte → All P (replicate n byte)
replicate-All P zero byte h = tt
replicate-All P (suc n) byte h = (h, replicate-All P n byte h)

abbrev picture : ℕ → Mat
picture byte = gray 432 352 (flat byte)

picture-IsStored : (byte : ℕ) → IsStored (picture byte)
picture-IsStored byte = cif_frame refl (length-flat byte)

abbrev hash_byte : List ℕ → ℕ
hash_byte text = if get_or text 0 0 == 48 then 66 else 67

abbrev vision : Vision
vision = record {
  element_mean = λ m. 1;
  to_yuv420 = λ m. m;
  yuv420_to_gray = λ m. m;
  to_gray = λ m. m;
  canny = λ m. m;
  hash_sha256 = λ text. replicate 64 (hash_byte text);
  sign_message = λ text. some text;
  signed_hash_bufsize = 350;
}

abbrev content : Option (List ℕ) → List ℕ
content none = []
content (some bytes) = bytes

-- The verifier, with the files that were written.
abbrev checker : List (List ℕ × List ℕ) → Checker.Environment
checker files = record {
  storage_dir = codes "/images/";
  usable = λ n. n + 1;
  file = λ name. content (last_written files name);
  vga = gray 720 640;
  cif = gray 432 352;
  hd = gray 1080 1280;
  yuv_to_gray = λ m. m;
  canny = λ m. m;
  hash_sha256 = λ text. replicate 64 (hash_byte text);
  verify_signature = λ hash signed_hash. true;
}

same_calls : (files : List (List ℕ × List ℕ)) → SameCalls vision (checker files)
same_calls files = record {
  same_gray = λ m. refl;
  same_canny = λ m. refl;
  vga_picture = λ bytes. refl;
  cif_picture = λ bytes. refl;
  hd_picture = λ bytes. refl;
}

same_storage : (files : List (List ℕ × List ℕ)) → SameStorage environment (checker files) files
same_storage files = record { directory = refl; reads = λ name bytes e. ap content e }

replicate-NoNul : (n c : ℕ) → c ≢ 0 → NoNul (replicate n c)
replicate-NoNul n c h = replicate-All (λ b. b ≢ 0) n c h

abbrev sample : Frame
sample = record {
  cid = replicate 23 65;
  hash = vision.hash_sha256 (mat_data (picture 0));
  signed_hash = replicate 350 67;
  picture = picture 0;
}

hash-NoNul : (text : List ℕ) → NoNul (vision.hash_sha256 text)
hash-NoNul text = replicate-NoNul 64 (hash_byte text) (λ e. ground arith)

sample-IsFrame : IsFrame sample.cid sample.hash sample.signed_hash sample.picture.bytes
sample-IsFrame = record {
  cid_length = refl;
  cid_text = replicate-NoNul 23 65 (ground arith);
  hash_length = refl;
  hash_text = hash-NoNul (mat_data (picture 0));
  signed_hash_length = refl;
  signed_hash_text = replicate-NoNul 350 67 (ground arith);
  frame_length = omega (arith, length-flat 0);
}

sample-HasRoom : HasRoom environment (437 + length sample.picture.bytes)
sample-HasRoom = record {
  buffer = omega (arith, length-flat 0);
  cid_room = ground arith;
  hash_room = ground arith;
  signed_hash_room = ground arith;
}

abbrev arrived : State pipe scripted environment
arrived =
    state (sample.cid ++ (sample.hash ++ (sample.signed_hash ++ (sample.picture.bytes ++ []))))

abbrev stored : State pipe scripted environment
stored =
    stored_state environment sample.cid sample.hash sample.signed_hash sample.picture.bytes []
      arrived

abbrev signed_hash_row : List (List (Option (List ℕ)))
signed_hash_row = (some sample.hash ∷ some sample.signed_hash ∷ []) ∷ []

abbrev found : Globals
found = record first_globals { hash_db = sample.hash }

abbrev left_by_verify : Globals
left_by_verify = compare_hash scripted (checker stored.files) (
    edge_detection scripted (checker stored.files) (
      convert_frames scripted (checker stored.files)
        (read_video_data scripted (checker stored.files) sample.cid found)))

abbrev asked_text : List ℕ
asked_text = hash_text (codes "AAAA_AAAA") sample.cid

verify_ends :
    verify scripted
      (checker stored.files)
      sample.cid
      first_globals
      (script (signed_hash_row ∷ []) [])
    ≡ some (left_by_verify, script [] (asked_text ∷ []))
unfolding verify get_data_from_db table_name substr read_row last_hash perform_query
verify_ends = refl

hash_read : left_by_verify.hash_db ≡ sample.hash
unfolding compare_hash edge_detection convert_frames
hash_read = (read_video_data-keeps scripted (checker stored.files) sample.cid found).1

delivered_frame-refused_example :
    (cmd_parser pipe scripted environment port
        (read_header (header_bytes (video_header (server_sizes (length sample.picture.bytes)))))
        arrived
      ≡ some (pos 0, stored))
    × (left_by_verify.feature_vector ≡ vision.canny (vision.yuv420_to_gray sample.picture))
    × (left_by_verify.verified ≡ negsuc 0)
delivered_frame-refused_example =
    delivered_frame-refused vision scripted environment (checker stored.files) port sample []
      arrived left_by_verify (script (signed_hash_row ∷ []) []) (script [] (asked_text ∷ []))
      sample-IsFrame sample-HasRoom refl (ground arith) refl (picture-IsStored 0)
      (same_calls stored.files) (same_storage stored.files) verify_ends hash_read
