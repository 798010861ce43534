-- ===== src/Logger/Upload.antt =====
-- `send_data_to_server`, `send_pubKey_to_server` and `gen_shares` of Logger/Logger.cpp.
use logger_verifier.Base.Decimal.{decimal}
use logger_verifier.Base.Run.{Run, pure, fault, ◌>>=◌, ◌>>◌, need}
use logger_verifier.Logger.Pictures.{Mat}
use logger_verifier.Wire.Network.{Network}
use logger_verifier.Wire.Packet.{
  HeaderPacket, server, char_data, uchar_data, pubkey_req, video_data_snd, test_gen_shares_cmd,
  client_make_packet, header_bytes,
}
use logger_verifier.Wire.Transfer.{IoPort, async_bufsize, send_binary}
use logger_verifier.Base.{
  ℕ, ◌+◌, ◌*◌, Bool, true, false, Option, none, some, List, [], ◌∷◌, ◌++◌, ltb, leb, if◌then◌else◌,
  length, take, replicate,
}

-- The sizes of the four buffers.
pub record Sizes : Type 0 where
  pub cid_bufsize : ℕ
  pub hash_bufsize : ℕ
  pub signed_hash_bufsize : ℕ
  pub video_bufsize : ℕ

-- `capacity` is that of a `std::string`; `usable n` is how many bytes `new char[n]` gives.
pub record Memory : Type 0 where
  pub capacity : List ℕ → ℕ
  pub usable : ℕ → ℕ

-- The `uint32_t` that `makePacket` gets.
unfoldable pub total_data_size : Sizes → ℕ
total_data_size z = z.cid_bufsize + z.hash_bufsize + z.signed_hash_bufsize + z.video_bufsize

unfoldable pub video_header : Sizes → HeaderPacket
unfolding client_make_packet total_data_size
video_header z = client_make_packet server video_data_snd uchar_data (total_data_size z)

module _ (N : Network) (M : Memory) where
  -- `memset` to 0, then `strcpy` with the text's NUL.
  unfoldable pub text_buffer : ℕ → List ℕ → Option (List ℕ)
  text_buffer size text =
      if ltb (length text) (M.usable size)
      then some (take size (text ++ replicate size 0))
      else none

  -- `memcpy` of `size` bytes of a picture.
  unfoldable pub video_buffer : ℕ → List ℕ → Option (List ℕ)
  video_buffer size bytes = if leb size (length bytes) then some (take size bytes) else none

  unfoldable pub send_bytes : IoPort → List ℕ → Run N.World Bool
  send_bytes p bs w = elim (send_binary N async_bufsize (some p) bs w) [
    | none ↦ none
    | some m ↦ some (m.complete, m.world)
  ]

  -- The four `send_binary` after the header, whose results are only reported.
  unfoldable pub send_fields : IoPort → List ℕ → List ℕ → List ℕ → List ℕ → Run N.World (Unit {0})
  send_fields p cid hash signed_hash video = do
    _ ← send_bytes p cid
    _ ← send_bytes p hash
    _ ← send_bytes p signed_hash
    _ ← send_bytes p video
    pure tt

  -- One turn of the loop: `false` where the header could not be sent, which ends the loop.
  unfoldable pub send_frame : IoPort → Sizes → List ℕ → List ℕ → List ℕ → Mat → Run N.World Bool
  send_frame p z cid hash signed_hash picture = do
    cid_bytes ← need (text_buffer z.cid_bufsize cid)
    hash_bytes ← need (text_buffer z.hash_bufsize hash)
    signed_hash_bytes ← need (text_buffer z.signed_hash_bufsize signed_hash)
    video_bytes ← need (video_buffer z.video_bufsize picture.bytes)
    ok ← send_bytes p (header_bytes (video_header z))
    elim ok [
      | true ↦ send_fields p cid_bytes hash_bytes signed_hash_bytes video_bytes >> pure true
      | false ↦ pure false
    ]

  -- The loop: it ends when the four queues are empty, and the front of an empty one is undefined.
  unfoldable pub send_frames :
      IoPort
      → Sizes
      → List (List ℕ)
      → List (List ℕ)
      → List (List ℕ)
      → List Mat
      → Run N.World (Unit {0})
  send_frames p z [] [] [] [] = pure tt
  send_frames p z (c ∷ cs) (h ∷ hs) (s ∷ ss) (m ∷ ms) = do
    ok ← send_frame p z c h s m
    elim ok [ true ↦ send_frames p z cs hs ss ms | false ↦ pure tt ]
  send_frames p z _ _ _ _ = fault

  -- The sizes are those of the first elements.
  unfoldable pub front_sizes : List ℕ → List ℕ → List ℕ → Mat → Sizes
  front_sizes c h s m = record {
    cid_bufsize = M.capacity c;
    hash_bufsize = M.capacity h;
    signed_hash_bufsize = M.capacity s;
    video_bufsize = m.rows * m.cols * m.channels;
  }

  unfoldable pub send_data_to_server :
      IoPort → List (List ℕ) → List (List ℕ) → List (List ℕ) → List Mat → Run N.World (Unit {0})
  send_data_to_server p (c ∷ cs) (h ∷ hs) (s ∷ ss) (m ∷ ms) =
      send_frames p (front_sizes c h s m) (c ∷ cs) (h ∷ hs) (s ∷ ss) (m ∷ ms)
  send_data_to_server p _ _ _ _ = fault

  -- A header and a text, without the text's NUL.
  unfoldable pub send_text : IoPort → ℕ → List ℕ → Run N.World (Unit {0})
  send_text p cmd text = do
    _ ← send_bytes p (header_bytes (client_make_packet server cmd char_data (length text)))
    _ ← send_bytes p text
    pure tt

  -- The copy with its NUL needs room; and the source's function has no `return`, though its type is
  -- `int`, which is left out here.
  unfoldable pub send_pub_key_to_server : IoPort → List ℕ → Run N.World (Unit {0})
  send_pub_key_to_server p public_key =
      if ltb (length public_key) (M.usable (length public_key))
      then send_text p pubkey_req public_key
      else fault

  -- The two numbers' decimals, one after the other.
  unfoldable pub gen_shares : IoPort → ℕ → ℕ → Run N.World (Unit {0})
  gen_shares p num_of_share threshold =
      send_text p test_gen_shares_cmd (decimal num_of_share ++ decimal threshold)
