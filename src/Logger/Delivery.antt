-- ===== src/Logger/Delivery.antt =====
-- What the logger sends for its frames on the network of Wire/Pipe, and what the server makes of
-- it.
use logger_verifier.Logger.Pictures.{Mat}
use logger_verifier.Logger.Upload.{Sizes, Memory, video_header, send_bytes, front_sizes}
use logger_verifier.Wire.Packet.{header_bytes}
use logger_verifier.Wire.Pipe.{PipeWorld, pipe}
use logger_verifier.Wire.Steady.{send_binary-pipe}
use logger_verifier.Wire.Transfer.{IoPort, async_bufsize}
use logger_verifier.Base.{ℕ, ◌<◌, ◌≡◌, true, some, List, [], ◌∷◌, ◌++◌, arith, length}

-- An entry of the four queues.
pub record Frame : Type 0 where
  pub cid : List ℕ
  pub hash : List ℕ
  pub signed_hash : List ℕ
  pub picture : Mat

-- The texts and the picture fill the buffers, which are not empty, and there is room for the NULs.
pub record Fits (M : Memory) (z : Sizes) (f : Frame) : Type 0 where
  pub cid_fits : length f.cid ≡ z.cid_bufsize
  pub hash_fits : length f.hash ≡ z.hash_bufsize
  pub signed_hash_fits : length f.signed_hash ≡ z.signed_hash_bufsize
  pub video_fits : length f.picture.bytes ≡ z.video_bufsize
  pub cid_room : z.cid_bufsize < M.usable z.cid_bufsize
  pub hash_room : z.hash_bufsize < M.usable z.hash_bufsize
  pub signed_hash_room : z.signed_hash_bufsize < M.usable z.signed_hash_bufsize
  pub cid_some : 0 < z.cid_bufsize
  pub hash_some : 0 < z.hash_bufsize
  pub signed_hash_some : 0 < z.signed_hash_bufsize
  pub video_some : 0 < z.video_bufsize

-- What goes over the wire for a frame.
abbrev pub frame_message : Sizes → Frame → List ℕ
frame_message z f =
    header_bytes (video_header z) ++ (f.cid ++ (f.hash ++ (f.signed_hash ++ f.picture.bytes)))

abbrev pub messages : Sizes → List Frame → List ℕ
messages z [] = []
messages z (f ∷ fs) = frame_message z f ++ messages z fs

module _ (M : Memory) where
  abbrev pub sent_more : PipeWorld → List ℕ → PipeWorld
  sent_more w bs = record w { outgoing = w.outgoing ++ bs }

  pub send_bytes-pipe :
      (p : IoPort) (bs : List ℕ) (w : PipeWorld)
      → 0 < w.chunk
      → 0 < length bs
      → send_bytes pipe M p bs w ≡ some (true, sent_more w bs)
  unfolding send_bytes
  send_bytes-pipe p bs w hc hb =
      let e = send_binary-pipe async_bufsize p bs w (omega arith) hc hb in ground arith

  -- The sizes that the first frame gives.
  abbrev pub sizes_of : Frame → Sizes
  sizes_of f = front_sizes pipe M f.cid f.hash f.signed_hash f.picture
