-- ===== src/Verifier/Verdict.antt =====
-- What the verifier finds.
use logger_verifier.Base.Decimal.{pos, negsuc}
use logger_verifier.Database.Mysql.{Mysql}
use logger_verifier.Verifier.Check.{
  Environment, Globals, first_globals, substr, table_name, get_data_from_db, read_video_data,
  convert_frames, edge_detection, compare_hash, verify, verifier_main,
}
use logger_verifier.Base.{
  ℕ, ◌<◌, ◌≡◌, refl, inl, inr, none, some, List, [], arith, if◌then◌else◌, Option-cases, length,
  bytes_eq,
}

module _ (D : Mysql) (E : Environment) where
  -- A CID of fewer than eight characters, and so the empty one that `main` starts with, ends the
  -- program by an exception, whatever the database holds.
  pub verify-short :
      (cid : List ℕ) (g : Globals) (w : D.World)
      → length cid < 8
      → (verify D E cid g w ≡ none) × (verifier_main D E w ≡ none)
  unfolding verifier_main verify get_data_from_db table_name substr
  verify-short cid g w h = (ground arith, refl)

  pub read_video_data-keeps :
      (cid : List ℕ) (g : Globals)
      → ((read_video_data D E cid g).hash_vf ≡ g.hash_vf)
        × ((read_video_data D E cid g).hash_db ≡ g.hash_db)
  unfolding read_video_data
  read_video_data-keeps cid g = ground arith

  get_data_from_db-keeps :
      (cid : List ℕ) (g g' : Globals) (w w' : D.World)
      → get_data_from_db D E cid g w ≡ some (g', w')
      → g'.hash_vf ≡ g.hash_vf
  unfolding get_data_from_db
  get_data_from_db-keeps cid g g' w w' e = ground arith

  -- When `verify` ends for a CID, starting from the first values of the globals, its verdict is 1
  -- exactly if the hash that it has read is empty, else -1: the hash of the stored frame is never
  -- computed.
  pub verify-verdict :
      (cid : List ℕ) (w w' : D.World) (g : Globals)
      → verify D E cid first_globals w ≡ some (g, w')
      → g.verified ≡ (if bytes_eq g.hash_db [] then pos 1 else negsuc 0)
  unfolding verify compare_hash edge_detection convert_frames
  verify-verdict cid w w' g e = elim (Option-cases (get_data_from_db D E cid first_globals w)) [
    | inl f ↦ ground arith
    | inr ((found, v), f) ↦
        let (a, b) = read_video_data-keeps cid found in
        let c = get_data_from_db-keeps cid first_globals found w v f in ground arith
  ]
