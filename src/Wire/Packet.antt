-- ===== src/Wire/Packet.antt =====
-- `HEADERPACKET` of Server/server.h and Client/client.h, the command codes of
-- command_parser/command_define_list.h, and how a header is filled in. Both programs send the
-- struct's memory: four bytes and a 32-bit word, without padding, the word lowest byte first.
use logger_verifier.Base.{
  ℕ, ◌+◌, ◌*◌, ◌/◌, ◌%◌, ◌^◌, ◌<◌, ◌≡◌, List, [], ◌∷◌, arith, length, get_or,
}

pub record HeaderPacket : Type 0 where
  pub start_id : ℕ
  pub dest_id : ℕ
  pub command : ℕ
  pub data_type : ℕ
  pub data_size : ℕ

abbrev pub logger : ℕ
logger = 0x10

abbrev pub server : ℕ
server = 0x12

abbrev pub char_data : ℕ
char_data = 0xa0

abbrev pub uchar_data : ℕ
uchar_data = 0xa1

abbrev pub pubkey_req : ℕ
pubkey_req = 0x01

abbrev pub pubkey_res : ℕ
pubkey_res = 0xf1

abbrev pub video_data_snd : ℕ
video_data_snd = 0x02

abbrev pub video_data_res : ℕ
video_data_res = 0xf2

abbrev pub share_res_cmd : ℕ
share_res_cmd = 0x83

abbrev pub ano_share_res_cmd : ℕ
ano_share_res_cmd = 0x85

abbrev pub nice_2_meet_u : ℕ
nice_2_meet_u = 0xf9

abbrev pub test_gen_shares_cmd : ℕ
test_gen_shares_cmd = 0xe0

abbrev pub test_share_req_cmd : ℕ
test_share_req_cmd = 0xe2

-- `makePacket` of the server, with `ThisID` defined as `Server`.
unfoldable pub make_packet : ℕ → ℕ → ℕ → ℕ → HeaderPacket
make_packet dest cmd type size = record {
  start_id = server;
  dest_id = dest % 256;
  command = cmd % 256;
  data_type = type % 256;
  data_size = size % 2 ^ 32;
}

-- `makePacket` of the client clears the header first, and the sender is always the logger.
unfoldable pub client_make_packet : ℕ → ℕ → ℕ → ℕ → HeaderPacket
client_make_packet dest cmd type size = record {
  start_id = logger;
  dest_id = dest % 256;
  command = cmd % 256;
  data_type = type % 256;
  data_size = size % 2 ^ 32;
}

-- The eight bytes of the struct.
unfoldable pub header_bytes : HeaderPacket → List ℕ
header_bytes h =
    h.start_id
    ∷ h.dest_id
    ∷ h.command
    ∷ h.data_type
    ∷ (h.data_size % 256)
    ∷ (h.data_size / 256 % 256)
    ∷ (h.data_size / 65536 % 256)
    ∷ (h.data_size / 16777216 % 256)
    ∷ []

-- `(HEADERPACKET *)buf` on a buffer of `CMD_HDR_SIZE` bytes.
unfoldable pub read_header : List ℕ → HeaderPacket
read_header buf = record {
  start_id = get_or buf 0 0;
  dest_id = get_or buf 1 0;
  command = get_or buf 2 0;
  data_type = get_or buf 3 0;
  data_size =
      get_or buf 4 0 + 256 * get_or buf 5 0 + 65536 * get_or buf 6 0 + 16777216 * get_or buf 7 0;
}

-- A header that the client makes reads back from its eight bytes with every field as given, for
-- fields that fit their type; the sender field is the logger's.
pub read_header-make_packet :
    (dest cmd type size : ℕ)
    → dest < 256
    → cmd < 256
    → type < 256
    → size < 2 ^ 32
    → (read_header (header_bytes (client_make_packet dest cmd type size)) ≡ record {
      start_id = logger;
      dest_id = dest;
      command = cmd;
      data_type = type;
      data_size = size;
    })
      × (length (header_bytes (client_make_packet dest cmd type size)) ≡ 8)
unfolding read_header header_bytes client_make_packet
read_header-make_packet dest cmd type size hd hc ht hs = ground arith
