-- ===== src/Server/Video.antt =====
-- `video_data_send` of command_parser/command_function_list.cpp.
use logger_verifier.Base.Decimal.{ℤ, pos}
use logger_verifier.Base.Run.{Run, pure, fault, ◌>>=◌, ◌>>◌}
use logger_verifier.Database.Mysql.{Mysql}
use logger_verifier.Database.Queries.{insert_video_data}
use logger_verifier.Server.State.{
  Environment, State, receive, on_database, make_res_packet, send_res_packet, write_file,
  buffer_text,
}
use logger_verifier.Wire.Network.{Network}
use logger_verifier.Wire.Packet.{HeaderPacket, logger, video_data_res}
use logger_verifier.Wire.Transfer.{IoPort}
use logger_verifier.Base.{
  ℕ, ◌+◌, ◌-◌, ◌%◌, ◌^◌, Option, none, some, List, ◌++◌, ltb, leb, if◌then◌else◌, length, take,
  replicate, codes,
}

abbrev pub cid_size : ℕ
cid_size = 23

abbrev pub hash_size : ℕ
hash_size = 64

abbrev pub signed_hash_size : ℕ
signed_hash_size = 350

-- `msg->dataSize - CID_size_D - Hash_size_D - Signed_Hash_size_D` in 32 bits, stored in an `int`;
-- `none` is a negative one.
unfoldable pub frame_size : ℕ → Option ℕ
frame_size size =
    let n = (size + (2 ^ 32 - 437)) % 2 ^ 32 in if ltb n (2 ^ 31) then some n else none

-- A buffer of `size` bytes cleared by `memset`, once `bytes` have been stored in it.
unfoldable pub cleared_buffer : ℕ → List ℕ → List ℕ
cleared_buffer size bytes = bytes ++ replicate (size - length bytes) 0

module _ (N : Network) (D : Mysql) (E : Environment) where
  -- `recv_binary(port, n, recv_buf)`, its result unused, on a cleared buffer of `size` bytes. Bytes
  -- stored past what the allocator gave are undefined.
  unfoldable pub fill_buffer : IoPort → ℕ → ℕ → Run (State N D E) (List ℕ)
  unfolding receive cleared_buffer
  fill_buffer p size n = do
    m ← receive N D E p n
    if leb (length m.bytes) (E.usable size) then pure (cleared_buffer size m.bytes) else fault

  -- `strcpy` to a buffer of `size` bytes; the text and its NUL must fit what the allocator gave.
  unfoldable pub copy_text : ℕ → List ℕ → Run (State N D E) (List ℕ)
  copy_text size text = if ltb (length text) (E.usable size) then pure text else fault

  -- The next `n` bytes as a text of a buffer of `n` bytes.
  unfoldable pub read_text : IoPort → ℕ → ℕ → Run (State N D E) (List ℕ)
  unfolding fill_buffer copy_text
  read_text p size n = do buf ← fill_buffer p size n; copy_text n (buffer_text N D E buf)

  -- `sStorage_dir + "/" + frame_dir`.
  unfoldable pub frame_path : List ℕ → List ℕ
  frame_path cid = E.storage_dir ++ codes "/" ++ cid

  -- What follows the three texts. A negative size receives nothing and writes without bound.
  unfoldable pub store_frame : IoPort → ℕ → List ℕ → Option ℕ → Run (State N D E) (Unit {0})
  unfolding fill_buffer write_file frame_path
  store_frame p size cid none = fault
  store_frame p size cid (some n) = do
    buf ← fill_buffer p size n
    write_file N D E (frame_path cid) (take n buf)

  -- The header of the answer waits in `for_res_packet` while the database is written.
  unfoldable pub video_data_send : HeaderPacket → IoPort → Run (State N D E) ℤ
  video_data_send h p = do
    cid ← read_text p h.data_size cid_size
    hash ← read_text p h.data_size hash_size
    signed_hash ← read_text p h.data_size signed_hash_size
    store_frame p h.data_size cid (frame_size h.data_size)
    make_res_packet N D E logger video_data_res 0 0
    on_database N D E (insert_video_data D cid hash signed_hash)
    send_res_packet N D E p
    pure (pos 1)
