-- ===== src/Session/Transfer.antt =====
-- A frame on its way from the logger's queues to the server's storage.
use logger_verifier.Base.Decimal.{pos}
use logger_verifier.Database.Scripted.{scripted}
use logger_verifier.Logger.Delivery.{Frame}
use logger_verifier.Logger.Upload.{Sizes, total_data_size, video_header}
use logger_verifier.Server.Dispatch.{
  video_data_sent, parser_desp, find_command, reply_of, callback, cmd_parser,
}
use logger_verifier.Server.Acks.{cmd_parser_found}
use logger_verifier.Server.State.{Environment, State}
use logger_verifier.Server.Stored.{IsFrame, HasRoom, stored_state, video_data_send-stores}
use logger_verifier.Server.Video.{frame_path, video_data_send}
use logger_verifier.Wire.Packet.{
  HeaderPacket, header_bytes, read_header, server, video_data_snd, uchar_data,
  read_header-make_packet,
}
use logger_verifier.Wire.Pipe.{pipe}
use logger_verifier.Wire.Transfer.{IoPort}
use logger_verifier.Base.{
  ℕ, ◌+◌, ◌-◌, ◌^◌, ◌<◌, ◌≡◌, refl, sym, ap, ◌∙◌, subst, true, some, List, ◌++◌, arith, length,
}

-- The sizes that the server expects.
abbrev pub server_sizes : ℕ → Sizes
server_sizes n = record {
  cid_bufsize = 23;
  hash_bufsize = 64;
  signed_hash_bufsize = 350;
  video_bufsize = n;
}

header_size :
    (n : ℕ)
    → n < 2 ^ 31 - 437
    → (read_header (header_bytes (video_header (server_sizes n)))).data_size ≡ 437 + n
unfolding video_header total_data_size
header_size n h =
    let (e, l) =
      read_header-make_packet server video_data_snd uchar_data (23 + 64 + 350 + n) (omega arith)
        (omega arith) (omega arith) (omega arith) in
    ap (λ h. h.data_size) e ∙ ground arith

header_command :
    (n : ℕ)
    → n < 2 ^ 31 - 437
    → (read_header (header_bytes (video_header (server_sizes n)))).command ≡ 2
unfolding video_header total_data_size
header_command n h =
    let (e, l) =
      read_header-make_packet server video_data_snd uchar_data (23 + 64 + 350 + n) (omega arith)
        (omega arith) (omega arith) (omega arith) in
    ap (λ h. h.command) e

video_found :
    (h : HeaderPacket) → h.command ≡ 2 → find_command parser_desp h.command ≡ some video_data_sent
unfolding find_command
video_found h e = rw e refl

run_video :
    (E : Environment) (p : IoPort) (h : HeaderPacket) (st : State pipe scripted E)
    → video_data_send pipe scripted E h p st ≡ callback pipe scripted E video_data_sent h p st
unfolding callback
run_video E p h st = refl

-- When the server has read the eight bytes of the header that the logger sends for a frame, and the
-- rest of the frame's message has arrived, `cmd_parser` returns 0 and has stored exactly the
-- logger's picture, CID, hash and signed hash, as `stored_state` says. This needs the logger's
-- buffers to have the sizes that the server has built in: 23, 64 and 350 bytes, and the three texts
-- to have these lengths and no NUL; the picture has fewer than 2^31 - 437 bytes. The file of the
-- frame can be created, and the allocator gives the sizes asked for, and for each text the byte of
-- its NUL too.
pub frame_delivered :
    (E : Environment) (p : IoPort) (f : Frame) (rest : List ℕ) (st : State pipe scripted E)
    → IsFrame f.cid f.hash f.signed_hash f.picture.bytes
    → HasRoom E (437 + length f.picture.bytes)
    → st.net.incoming ≡ f.cid ++ (f.hash ++ (f.signed_hash ++ (f.picture.bytes ++ rest)))
    → 0 < st.net.chunk
    → E.can_create (frame_path pipe scripted E f.cid) ≡ true
    → cmd_parser pipe scripted E p
        (read_header (header_bytes (video_header (server_sizes (length f.picture.bytes)))))
        st
      ≡ some (pos 0, stored_state E f.cid f.hash f.signed_hash f.picture.bytes rest st)
unfolding reply_of
frame_delivered E p f rest st ok room arrived hc can =
    let h = read_header (header_bytes (video_header (server_sizes (length f.picture.bytes)))) in
    let size = header_size (length f.picture.bytes) ok.frame_length in
    let command = header_command (length f.picture.bytes) ok.frame_length in
    let stores =
      video_data_send-stores E p h f.cid f.hash f.signed_hash f.picture.bytes rest st ok size
        (subst (HasRoom E) (sym size) room) arrived hc can in
    cmd_parser_found pipe scripted E p h st
      (stored_state E f.cid f.hash f.signed_hash f.picture.bytes rest st) video_data_sent (pos 1)
      (video_found h command) (sym (run_video E p h st) ∙ stores)
