-- ===== src/Session/Verification.antt =====
-- A frame from the logger over the server's storage to the verifier.
use logger_verifier.Base.Decimal.{pos, negsuc}
use logger_verifier.Database.Mysql.{Mysql}
use logger_verifier.Logger.Pictures.{Mat}
use logger_verifier.Logger.Pipeline.{Vision}
use logger_verifier.Verifier.Check.{
  Environment, Globals, vga_size, cif_size, hd_size, get_data_from_db, read_video_data,
  convert_frames, edge_detection, compare_hash, verify,
}
use logger_verifier.Base.{
  ℕ, ◌≡◌, inl, inr, some, List, ◌++◌, arith, if◌then◌else◌, Option-cases, length, bytes_eq,
}

-- A picture of OpenCV with one channel.
abbrev pub gray : ℕ → ℕ → List ℕ → Mat
gray rows cols bytes = record { rows = rows; cols = cols; channels = 1; bytes = bytes }

-- Both programs call the same OpenCV, and `cv::Mat` of a size and its data
-- has that size and holds the data.
pub record SameCalls (V : Vision) (E : Environment) : Type 0 where
  pub same_gray : (m : Mat) → E.yuv_to_gray m ≡ V.yuv420_to_gray m
  pub same_canny : (m : Mat) → E.canny m ≡ V.canny m
  pub vga_picture : (bytes : List ℕ) → E.vga bytes ≡ gray 720 640 bytes
  pub cif_picture : (bytes : List ℕ) → E.cif bytes ≡ gray 432 352 bytes
  pub hd_picture : (bytes : List ℕ) → E.hd bytes ≡ gray 1080 1280 bytes

-- A YUV420 picture of one of the three camera sizes that the Web UI can ask for.
pub data IsStored (m : Mat) : Type 0 where
  vga_frame : m ≡ gray 720 640 m.bytes → length m.bytes ≡ vga_size → IsStored m
  cif_frame : m ≡ gray 432 352 m.bytes → length m.bytes ≡ cif_size → IsStored m
  hd_frame : m ≡ gray 1080 1280 m.bytes → length m.bytes ≡ hd_size → IsStored m

module _ (V : Vision) (D : Mysql) (E : Environment) (same : SameCalls V E) where
  read_video_data-IsStored :
      (cid : List ℕ) (g : Globals) (m : Mat)
      → IsStored m
      → E.file (E.storage_dir ++ cid) ≡ m.bytes
      → read_video_data D E cid g ≡ record g { yuv420 = m }
  unfolding read_video_data
  read_video_data-IsStored cid g m (vga_frame e size) read =
      let p = same.vga_picture m.bytes in ground arith
  read_video_data-IsStored cid g m (cif_frame e size) read =
      let p = same.cif_picture m.bytes in ground arith
  read_video_data-IsStored cid g m (hd_frame e size) read =
      let p = same.hd_picture m.bytes in ground arith

  -- What `verify` finds for a CID whose file holds a picture: the edges of its Y part, and 1 exactly
  -- if the hash that it has read is the one that it started with.
  pub verify-IsStored :
      (cid : List ℕ) (g g' : Globals) (m : Mat) (w w' : D.World)
      → IsStored m
      → E.file (E.storage_dir ++ cid) ≡ m.bytes
      → verify D E cid g w ≡ some (g', w')
      → (g'.feature_vector ≡ V.canny (V.yuv420_to_gray m))
        × (g'.hash_vf ≡ g.hash_vf)
        × (g'.verified ≡ (if bytes_eq g'.hash_db g'.hash_vf then pos 1 else negsuc 0))
  unfolding verify get_data_from_db convert_frames edge_detection compare_hash
  verify-IsStored cid g g' m w w' stored read e =
      elim (Option-cases (get_data_from_db D E cid g w)) [
        | inl f ↦ ground arith
        | inr ((found, v), f) ↦
            let r = read_video_data-IsStored cid found m stored read in
            let a = same.same_gray m in let b = same.same_canny (V.yuv420_to_gray m) in ground arith
      ]
