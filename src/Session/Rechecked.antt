-- ===== src/Session/Rechecked.antt =====
-- What the verifier finds of a frame that the server has stored.
use logger_verifier.Base.Decimal.{pos, negsuc}
use logger_verifier.Database.Mysql.{Mysql}
use logger_verifier.Database.Scripted.{scripted}
use logger_verifier.Logger.Delivery.{Frame}
use logger_verifier.Logger.Pipeline.{Vision}
use logger_verifier.Logger.Upload.{video_header}
use logger_verifier.Server.Dispatch.{cmd_parser}
use logger_verifier.Server.State as ServerSide
use logger_verifier.Server.State.{State}
use logger_verifier.Server.Stored.{IsFrame, HasRoom, stored_state}
use logger_verifier.Server.Video.{frame_path}
use logger_verifier.Session.Transfer.{server_sizes, frame_delivered}
use logger_verifier.Session.Verification.{SameCalls, IsStored, verify-IsStored}
use logger_verifier.Verifier.Check.{Environment, Globals, first_globals, verify}
use logger_verifier.Wire.Packet.{header_bytes, read_header}
use logger_verifier.Wire.Pipe.{pipe}
use logger_verifier.Wire.Transfer.{IoPort}
use logger_verifier.Base.{
  ℕ, ◌+◌, ◌<◌, ◌≡◌, refl, ap, ◌∙◌, true, false, Option, none, some, List, [], ◌∷◌, ◌++◌, arith,
  if◌then◌else◌, length, codes, bytes_eq, bytes_eq_refl,
}

-- What a file holds once the files were written in this order.
abbrev pub last_written : List (List ℕ × List ℕ) → List ℕ → Option (List ℕ)
last_written [] name = none
last_written ((k, bytes) ∷ files) name = elim (last_written files name) [
  | none ↦ if bytes_eq k name then some bytes else none
  | some later ↦ some later
]

last_written-append :
    (files : List (List ℕ × List ℕ)) (name bytes : List ℕ)
    → last_written (files ++ (name, bytes) ∷ []) name ≡ some bytes
last_written-append [] name bytes = rw (bytes_eq_refl name) refl
last_written-append (file ∷ files) name bytes = rw (last_written-append files name bytes) refl

-- The verifier reads the files that the server has written, from the server's directory.
pub record SameStorage (E : ServerSide.Environment) (F : Environment)
    (files : List (List ℕ × List ℕ)) : Type 0 where
  pub directory : F.storage_dir ≡ E.storage_dir ++ codes "/"
  pub reads : (name bytes : List ℕ) → last_written files name ≡ some bytes → F.file name ≡ bytes

some_hash : (hash : List ℕ) → length hash ≡ 64 → bytes_eq hash [] ≡ false
unfolding bytes_eq
some_hash [] h = absurd (omega arith)
some_hash (c ∷ cs) h = refl

-- When the message of a frame has arrived, `cmd_parser` returns 0 and stores the frame as
-- `stored_state` says. When then `verify`, the steps of the verifier's `main`, ends for its CID,
-- and the database has given back its hash, it has found exactly the edges of the Y part of the
-- picture that the logger has sent, and its verdict is -1 all the same: a genuine frame is refused,
-- since the hash of those edges is never computed. The CID, the hash and the signed hash have 23,
-- 64 and 350 bytes and no NUL, the picture fewer than 2^31 - 437 bytes; the file of the frame can
-- be created, and the allocator gives the sizes asked for, and for each text the byte of its NUL
-- too. The picture must have one of the three sizes that the verifier knows, its storage must be
-- the server's, and it must call the same OpenCV as the logger.
pub delivered_frame-refused :
    (V : Vision) (D : Mysql) (E : ServerSide.Environment) (F : Environment) (p : IoPort) (f : Frame)
    (rest : List ℕ) (st : State pipe scripted E) (g : Globals) (w w' : D.World)
    → IsFrame f.cid f.hash f.signed_hash f.picture.bytes
    → HasRoom E (437 + length f.picture.bytes)
    → st.net.incoming ≡ f.cid ++ (f.hash ++ (f.signed_hash ++ (f.picture.bytes ++ rest)))
    → 0 < st.net.chunk
    → E.can_create (frame_path pipe scripted E f.cid) ≡ true
    → IsStored f.picture
    → SameCalls V F
    → SameStorage E F (stored_state E f.cid f.hash f.signed_hash f.picture.bytes rest st).files
    → verify D F f.cid first_globals w ≡ some (g, w')
    → g.hash_db ≡ f.hash
    → (cmd_parser pipe scripted E p
          (read_header (header_bytes (video_header (server_sizes (length f.picture.bytes)))))
          st
        ≡ some (pos 0, stored_state E f.cid f.hash f.signed_hash f.picture.bytes rest st))
      × (g.feature_vector ≡ V.canny (V.yuv420_to_gray f.picture))
      × (g.verified ≡ negsuc 0)
unfolding frame_path
delivered_frame-refused V D E F p f rest st g w w' ok room arrived hc can known same storage run
      db =
    let path : F.storage_dir ++ f.cid ≡ frame_path pipe scripted E f.cid =
      ap (λ d. d ++ f.cid) storage.directory in
    let file : F.file (F.storage_dir ++ f.cid) ≡ f.picture.bytes =
      ap F.file path
      ∙ storage.reads (frame_path pipe scripted E f.cid) f.picture.bytes
          (last_written-append st.files (frame_path pipe scripted E f.cid) f.picture.bytes) in
    let (edges, kept, verdict) =
      verify-IsStored V D F same f.cid first_globals g f.picture w w' known file run in
    let unequal : bytes_eq g.hash_db g.hash_vf ≡ false =
      ap (λ h. bytes_eq h g.hash_vf) db
      ∙ ap (bytes_eq f.hash) kept
      ∙ some_hash f.hash ok.hash_length in
    (
      frame_delivered E p f rest st ok room arrived hc can,
      edges,
      verdict ∙ ap (λ b. if b then pos 1 else negsuc 0) unequal,
    )
