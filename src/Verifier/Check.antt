-- ===== src/Verifier/Check.antt =====
-- The functions of Verifier/Verifier.cpp. `none` is undefined behaviour, or the end of the program
-- by the exception of `std::string::substr`.
use logger_verifier.Base.Decimal.{ℤ, pos, negsuc}
use logger_verifier.Base.Run.{Run, pure, ◌>>=◌, need}
use logger_verifier.Database.Mysql.{Mysql, Row}
use logger_verifier.Database.Queries.{perform_query}
use logger_verifier.Logger.Pictures.{Mat, mat_data}
use logger_verifier.Base.{
  ℕ, Bool, Option, none, some, List, [], ◌∷◌, ◌++◌, ltb, leb, ◌==◌, if◌then◌else◌, length, take,
  drop, codes, bytes_eq,
}

abbrev pub signed_hash_size : ℕ
signed_hash_size = 350

abbrev pub vga_size : ℕ
vga_size = 460800

abbrev pub cif_size : ℕ
cif_size = 152064

abbrev pub hd_size : ℕ
hd_size = 1382400

-- What the verifier calls of OpenCV, OpenSSL and the allocator, and the files of its
-- storage. `file` gives the bytes of a file; `sized` is the picture that
-- `cv::Mat` makes of data of a known size.
pub record Environment : Type 0 where
  pub storage_dir : List ℕ
  pub usable : ℕ → ℕ
  pub file : List ℕ → List ℕ
  pub vga : List ℕ → Mat
  pub cif : List ℕ → Mat
  pub hd : List ℕ → Mat
  pub yuv_to_gray : Mat → Mat
  pub canny : Mat → Mat
  pub hash_sha256 : List ℕ → List ℕ
  pub verify_signature : List ℕ → List ℕ → Bool

-- The globals.
pub record Globals : Type 0 where
  pub yuv420 : Mat
  pub y : Mat
  pub feature_vector : Mat
  pub hash_db : List ℕ
  pub hash_vf : List ℕ
  pub verified : ℤ

abbrev pub no_picture : Mat
no_picture = record { rows = 0; cols = 0; channels = 1; bytes = [] }

abbrev pub first_globals : Globals
first_globals = record {
  yuv420 = no_picture;
  y = no_picture;
  feature_vector = no_picture;
  hash_db = [];
  hash_vf = [];
  verified = pos 0;
}

-- `substr(at, n)`: an exception past the end.
unfoldable pub substr : List ℕ → ℕ → ℕ → Option (List ℕ)
substr s from n = if leb from (length s) then some (take n (drop from s)) else none

-- `YYYY_MMDD` of a CID.
unfoldable pub table_name : List ℕ → Option (List ℕ)
table_name cid = elim (substr cid 0 4) [
  | none ↦ none
  | some year ↦ elim (substr cid 5 2) [
    | none ↦ none
    | some month ↦ elim (substr cid 8 2) [
      | none ↦ none
      | some day ↦ some (year ++ codes "_" ++ month ++ day)
    ]
  ]
]

abbrev pub hash_text : List ℕ → List ℕ → List ℕ
hash_text table cid =
    codes "select Hash, Signed_Hash from " ++ table ++ codes " where CID = " ++ cid ++ codes ";"

module _ (D : Mysql) (E : Environment) where
  -- One row: the hash, and the signed hash with its NUL in a buffer of `Signed_Hash_size`. The
  -- result of `verifySignature` is only printed.
  unfoldable pub read_row : Row → Option (List ℕ)
  read_row (some hash ∷ some signed_hash ∷ cells) =
      if ltb (length signed_hash) (E.usable signed_hash_size) then some hash else none
  read_row _ = none

  -- The loop over the rows: the last hash stays.
  unfoldable pub last_hash : List ℕ → List Row → Option (List ℕ)
  last_hash hash [] = some hash
  last_hash hash (r ∷ rs) = elim (read_row r) [ none ↦ none | some h ↦ last_hash h rs ]

  unfoldable pub get_data_from_db : List ℕ → Globals → Run D.World Globals
  get_data_from_db cid g = do
    table ← need (table_name cid)
    rows ← perform_query D (hash_text table cid)
    hash ← need (last_hash g.hash_db rows)
    pure (record g { hash_db = hash })

  -- A frame of an unknown size leaves the picture as it was.
  unfoldable pub read_video_data : List ℕ → Globals → Globals
  read_video_data cid g =
      let data_read = E.file (E.storage_dir ++ cid) in
      if length data_read == vga_size
      then record g { yuv420 = E.vga data_read }
      else if length data_read == cif_size
      then record g { yuv420 = E.cif data_read }
      else if length data_read == hd_size
      then record g { yuv420 = E.hd data_read }
      else g

  -- `YUV420` is the global `yuv420`, which is released.
  unfoldable pub convert_frames : Globals → Globals
  convert_frames g = record g { y = E.yuv_to_gray g.yuv420; yuv420 = no_picture }

  unfoldable pub edge_detection : Globals → Globals
  edge_detection g = record g { feature_vector = E.canny g.y; y = no_picture }

  -- It is declared and defined, and `main` does not call it.
  unfoldable pub make_hash : Globals → Globals
  unfolding mat_data
  make_hash g = record g {
    hash_vf = E.hash_sha256 (mat_data g.feature_vector);
    feature_vector = no_picture;
  }

  unfoldable pub compare_hash : Globals → Globals
  compare_hash g = record g { verified = if bytes_eq g.hash_db g.hash_vf then pos 1 else negsuc 0 }

  -- The body of `main` for a CID. `update_result` sends nothing, and `init_Verifier` sets variables
  -- of its own only.
  unfoldable pub verify : List ℕ → Globals → Run D.World Globals
  verify cid g = do
    found ← get_data_from_db cid g
    pure (compare_hash (edge_detection (convert_frames (read_video_data cid found))))

  -- `main`: the global `cid` is empty.
  unfoldable pub verifier_main : Run D.World Globals
  verifier_main = verify [] first_globals
