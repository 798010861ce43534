-- ===== src/Server/Tests.antt =====
-- The server at concrete inputs.
use logger_verifier.Base.Decimal.{pos}
use logger_verifier.Database.Scripted.{scripted}
use logger_verifier.Database.Sessions.{script}
use logger_verifier.Server.Acks.{Replies, cmd_parser-Replies}
use logger_verifier.Server.Dispatch.{parser_desp, find_command, cmd_parser}
use logger_verifier.Server.Shares.{lines, test_get_share}
use logger_verifier.Server.Sample.{environment}
use logger_verifier.Server.State.{State}
use logger_verifier.Server.Stored.{IsFrame, HasRoom, stored_state, video_data_send-stores}
use logger_verifier.Server.Video.{frame_size, video_data_send}
use logger_verifier.Server.Connections.{System, serving, Reach, port_type_tcp}
use logger_verifier.Server.Connections.Crossed.{switchboard, greeting_of, greeting_crosses}
use logger_verifier.Server.Connections.Safety.{two_threads_one_socket}
use logger_verifier.Server.Broken.{client_service_thread_never_ends}
use logger_verifier.Server.Service.{client_service_thread}
use logger_verifier.Wire.Network.{Network, select_failed, recv_failed, send_failed}
use logger_verifier.Wire.Packet.{HeaderPacket, make_packet, header_bytes, logger, nice_2_meet_u}
use logger_verifier.Wire.Pipe.{pipe}
use logger_verifier.Wire.Transfer.{IoPort}
use logger_verifier.Base.{
  ℕ, zero, suc, ◌≡◌, refl, ◌≢◌, true, none, some, List, [], ◌∷◌, ◌++◌, arith, ◌==◌, if◌then◌else◌,
  replicate, codes, NoNul,
}

abbrev port : IoPort
port = record { port_type = 0; s = 4; timeout = 30 }

abbrev cid : List ℕ
cid = replicate 23 65

abbrev hash : List ℕ
hash = replicate 64 66

abbrev signed_hash : List ℕ
signed_hash = replicate 350 67

abbrev frame : List ℕ
frame = 1 ∷ 0 ∷ 255 ∷ []

abbrev state : List ℕ → State pipe scripted environment
state incoming = record {
  net = record { incoming = incoming; outgoing = []; chunk = 100 };
  db = script [] [];
  res_packet = make_packet 0 0 0 0;
  test_shares = [];
  files = [];
  draws = 0;
}

replicate-NoNul : (n c : ℕ) → c ≢ 0 → NoNul (replicate n c)
replicate-NoNul zero c h = tt
replicate-NoNul (suc n) c h = (h, replicate-NoNul n c h)

frame-IsFrame : IsFrame cid hash signed_hash frame
frame-IsFrame = record {
  cid_length = refl;
  cid_text = replicate-NoNul 23 65 (ground arith);
  hash_length = refl;
  hash_text = replicate-NoNul 64 66 (ground arith);
  signed_hash_length = refl;
  signed_hash_text = replicate-NoNul 350 67 (ground arith);
  frame_length = ground arith;
}

frame-HasRoom : HasRoom environment 440
frame-HasRoom = record {
  buffer = ground arith;
  cid_room = ground arith;
  hash_room = ground arith;
  signed_hash_room = ground arith;
}

abbrev video_packet : HeaderPacket
video_packet = record { start_id = 16; dest_id = 18; command = 2; data_type = 161; data_size = 440 }

abbrev frame_bytes : List ℕ
frame_bytes = cid ++ (hash ++ (signed_hash ++ (frame ++ [])))

video_data_send-stores_example :
    video_data_send pipe scripted environment video_packet port (state frame_bytes)
    ≡ some (pos 1, stored_state environment cid hash signed_hash frame [] (state frame_bytes))
video_data_send-stores_example =
    video_data_send-stores environment port video_packet cid hash signed_hash frame []
      (state frame_bytes) frame-IsFrame refl frame-HasRoom refl (ground arith) refl

abbrev greeting : HeaderPacket
greeting = record { start_id = 16; dest_id = 18; command = 9; data_type = 0; data_size = 0 }

cmd_parser-Replies_example :
    Replies pipe scripted environment
      (find_command parser_desp 9)
      (state [])
      (cmd_parser pipe scripted environment port greeting (state []))
cmd_parser-Replies_example = cmd_parser-Replies pipe scripted environment port greeting (state [])

-- Less than the three texts is a negative frame size.
frame_size_small : frame_size 400 ≡ none
unfolding frame_size
frame_size_small = refl

share_lines : lines (codes "1ab" ++ 10 ∷ codes "2cd" ++ 10 ∷ []) ≡ codes "1ab" ∷ codes "2cd" ∷ []
unfolding lines
share_lines = refl

no_share : test_get_share pipe scripted environment (state []) ≡ none
unfolding test_get_share
no_share = refl

-- A socket on which every call fails.
abbrev broken : Network
broken = record {
  World = Unit {0};
  select_read = λ s t w. (select_failed, w);
  select_write = λ s t w. (select_failed, w);
  recv = λ s n w. (recv_failed, w);
  send = λ s bs w. (send_failed, w);
}

abbrev broken_state : State broken scripted environment
broken_state = record {
  net = tt;
  db = script [] [];
  res_packet = make_packet 0 0 0 0;
  test_shares = [];
  files = [];
  draws = 0;
}

client_service_thread_never_ends_example :
    client_service_thread broken scripted environment 1000 port broken_state
    ≡ some (true, broken_state)
client_service_thread_never_ends_example =
    client_service_thread_never_ends broken scripted environment port broken_state refl refl 1000

-- A greeting comes in on socket 4, whatever the port is.
abbrev greeting_bytes : List ℕ
greeting_bytes = 16 ∷ 18 ∷ 9 ∷ 0 ∷ 0 ∷ 0 ∷ 0 ∷ 0 ∷ []

abbrev greeted_state : State pipe scripted environment
greeted_state = record (state []) {
  net = record { incoming = []; outgoing = 18 ∷ 16 ∷ 249 ∷ 0 ∷ 0 ∷ 0 ∷ 0 ∷ 0 ∷ []; chunk = 100 };
  res_packet = make_packet 16 249 0 0;
}

-- One client, which is greeted.
abbrev one_client : System pipe scripted environment
one_client = record {
  port = record { port_type = port_type_tcp; s = 4; timeout = 30 };
  threads = serving 4 ∷ [];
  state = greeted_state;
  accepted = 4 ∷ [];
}

-- Two sockets: a greeting waits on the first.
abbrev waiting_state : State switchboard scripted environment
waiting_state = record {
  net = record { waiting = λ s. if s == 4 then greeting_of logger else []; log = [] };
  db = script [] [];
  res_packet = make_packet 0 0 0 0;
  test_shares = [];
  files = [];
  draws = 0;
}

greeting_crosses_example :
    (sys : System switchboard scripted environment) × Reach switchboard scripted environment port
      waiting_state sys
    × (sys.state.net.waiting 4 ≡ [])
    × (sys.state.net.log ≡ (5, header_bytes (make_packet logger nice_2_meet_u 0 0)) ∷ [])
greeting_crosses_example = greeting_crosses scripted environment port 4 5 [] waiting_state refl refl

two_threads_one_socket_example :
    (sys : System pipe scripted environment) × Reach pipe scripted environment port (state []) sys
    × (sys.accepted ≡ 5 ∷ 4 ∷ [])
    × (sys.threads ≡ serving 5 ∷ serving 5 ∷ [])
two_threads_one_socket_example =
    two_threads_one_socket pipe scripted environment port (state []) 4 5
