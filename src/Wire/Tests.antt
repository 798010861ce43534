-- ===== src/Wire/Tests.antt =====
-- Runs of the transport, and its theorems on a pipe that moves three bytes at a time.
use logger_verifier.Wire.Transfer.{
  IoPort, Moved, recv_round, recv_binary, client_recv_binary, send_once, send_binary,
}
use logger_verifier.Wire.Receive.{
  Reads, recv_binary_returns, recv_binary-Reads, client_recv_binary-Reads, recv_binary_message,
}
use logger_verifier.Wire.Send.{Writes, send_binary_returns, send_binary-Writes}
use logger_verifier.Wire.Packet.{
  client_make_packet, header_bytes, read_header, read_header-make_packet,
}
use logger_verifier.Wire.Pipe.{PipeWorld, pipe, pipe_recv, pipe_send, pipe-IsStream}
use logger_verifier.Base.{◌≡◌, refl, true, some, [], ◌∷◌, arith, length}

abbrev port : IoPort
port = record { port_type = 0; s = 4; timeout = 30 }

abbrev idle : PipeWorld
idle = record { incoming = 1 ∷ 2 ∷ 3 ∷ 4 ∷ 5 ∷ []; outgoing = []; chunk = 3 }

abbrev read_four : Moved PipeWorld
read_four = record {
  complete = true;
  bytes = 1 ∷ 2 ∷ 3 ∷ 4 ∷ [];
  world = record { incoming = 5 ∷ []; outgoing = []; chunk = 3 };
}

recv_binary_run : recv_binary pipe port 4 idle ≡ some read_four
unfolding recv_binary recv_round pipe_recv
recv_binary_run = refl

client_recv_binary_run : client_recv_binary pipe port 4 idle ≡ some read_four
unfolding client_recv_binary recv_round pipe_recv
client_recv_binary_run = refl

abbrev sent_four : Moved PipeWorld
sent_four = record {
  complete = true;
  bytes = 6 ∷ 7 ∷ 8 ∷ 9 ∷ [];
  world = record idle { outgoing = 6 ∷ 7 ∷ 8 ∷ 9 ∷ [] };
}

send_binary_run : send_binary pipe 3 (some port) (6 ∷ 7 ∷ 8 ∷ 9 ∷ []) idle ≡ some sent_four
unfolding send_binary send_once pipe_send
send_binary_run = refl

recv_binary_returns_example : (m : Moved PipeWorld) × (recv_binary pipe port 4 idle ≡ some m)
recv_binary_returns_example = recv_binary_returns pipe port 4 idle

recv_binary-Reads_example : Reads pipe pipe-IsStream 4 4 [] idle read_four
unfolding recv_binary recv_round pipe_recv
recv_binary-Reads_example = recv_binary-Reads pipe pipe-IsStream port 4 idle read_four refl

client_read : Reads pipe pipe-IsStream 4 4 [] idle read_four
unfolding client_recv_binary recv_round pipe_recv
client_read = client_recv_binary-Reads pipe pipe-IsStream port 4 idle read_four refl

four_bytes_read : (read_four.bytes ≡ 1 ∷ 2 ∷ 3 ∷ 4 ∷ []) × (read_four.world.incoming ≡ 5 ∷ [])
unfolding recv_binary recv_round pipe_recv pipe-IsStream
four_bytes_read =
    recv_binary_message pipe pipe-IsStream port (1 ∷ 2 ∷ 3 ∷ 4 ∷ []) (5 ∷ []) idle read_four
      (omega arith) refl refl refl

send_binary_returns_example :
    (m : Moved PipeWorld) × (send_binary pipe 3 (some port) (6 ∷ []) idle ≡ some m)
send_binary_returns_example = send_binary_returns pipe 3 (some port) (6 ∷ []) idle

send_binary-Writes_example : Writes pipe pipe-IsStream 4 [] (6 ∷ 7 ∷ 8 ∷ 9 ∷ []) idle sent_four
unfolding send_binary send_once pipe_send
send_binary-Writes_example =
    send_binary-Writes pipe pipe-IsStream 3 port (6 ∷ 7 ∷ 8 ∷ 9 ∷ []) idle sent_four refl

read_header-make_packet_example :
    (read_header (header_bytes (client_make_packet 0x12 0x02 0xa1 70000)) ≡ record {
      start_id = 0x10;
      dest_id = 0x12;
      command = 0x02;
      data_type = 0xa1;
      data_size = 70000;
    })
    × (length (header_bytes (client_make_packet 0x12 0x02 0xa1 70000)) ≡ 8)
read_header-make_packet_example =
    read_header-make_packet 0x12 0x02 0xa1 70000 (omega arith) (omega arith) (omega arith)
      (omega arith)
