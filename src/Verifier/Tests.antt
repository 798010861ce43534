-- ===== src/Verifier/Tests.antt =====
-- The verifier on a database with one row.
use logger_verifier.Base.Decimal.{pos, negsuc}
use logger_verifier.Database.Queries.{perform_query}
use logger_verifier.Database.Scripted.{scripted}
use logger_verifier.Database.Sessions.{script}
use logger_verifier.Verifier.Check.{
  Environment, Globals, no_picture, first_globals, hash_text, verify, verifier_main,
  get_data_from_db, table_name, substr, last_hash, read_row, read_video_data, convert_frames,
  edge_detection, compare_hash,
}
use logger_verifier.Verifier.Verdict.{verify-short, verify-verdict}
use logger_verifier.Base.{
  ℕ, ◌≡◌, refl, true, Option, none, some, List, [], ◌∷◌, arith, if◌then◌else◌, codes, bytes_eq,
}

abbrev environment : Environment
environment = record {
  storage_dir = codes "/images/";
  usable = λ n. n;
  file = λ name. [];
  vga = λ bytes. no_picture;
  cif = λ bytes. no_picture;
  hd = λ bytes. no_picture;
  yuv_to_gray = λ m. m;
  canny = λ m. m;
  hash_sha256 = λ text. text;
  verify_signature = λ hash signed_hash. true;
}

abbrev frame_cid : List ℕ
frame_cid = codes "2022-08-10_12:00:05.700"

abbrev stored_row : List (List (Option (List ℕ)))
stored_row = (some (codes "beef") ∷ some (codes "sign") ∷ []) ∷ []

abbrev found : Globals
found = record first_globals { hash_db = codes "beef"; verified = negsuc 0 }

verify_runs :
    verify scripted environment frame_cid first_globals (script (stored_row ∷ []) [])
    ≡ some (found, script [] (hash_text (codes "2022_0810") frame_cid ∷ []))
unfolding verify get_data_from_db table_name substr last_hash read_row read_video_data
    convert_frames edge_detection compare_hash perform_query bytes_eq
verify_runs = refl

verify-verdict_example : found.verified ≡ (if bytes_eq found.hash_db [] then pos 1 else negsuc 0)
verify-verdict_example =
    verify-verdict scripted environment frame_cid (script (stored_row ∷ []) [])
      (script [] (hash_text (codes "2022_0810") frame_cid ∷ [])) found verify_runs

short_cid :
    (verify scripted environment (codes "2022") first_globals (script [] []) ≡ none)
    × (verifier_main scripted environment (script [] []) ≡ none)
short_cid =
    verify-short scripted environment (codes "2022") first_globals (script [] []) (ground arith)
