-- ===== src/Session/Tests.antt =====
-- A frame of four bytes on its way.
use logger_verifier.Base.Decimal.{decimal, pos}
use logger_verifier.Database.Scripted.{scripted}
use logger_verifier.Database.Sessions.{script}
use logger_verifier.Logger.Delivery.{Frame}
use logger_verifier.Logger.Upload.{video_header}
use logger_verifier.Server.Dispatch.{cmd_parser}
use logger_verifier.Server.State.{Environment, State}
use logger_verifier.Server.Stored.{IsFrame, HasRoom, stored_state}
use logger_verifier.Server.Handlers.{test_gen_shares}
use logger_verifier.Server.Shares.{lines}
use logger_verifier.Session.Shares.{request_text, shares_generated_as_requested}
use logger_verifier.Session.Transfer.{server_sizes, frame_delivered}
use logger_verifier.Wire.Packet.{HeaderPacket, header_bytes, make_packet, read_header}
use logger_verifier.Wire.Pipe.{pipe}
use logger_verifier.Wire.Transfer.{IoPort}
use logger_verifier.Base.{
  ℕ, zero, suc, ◌+◌, ◌-◌, ◌*◌, ◌/◌, ◌≡◌, refl, sym, ap, ◌≢◌, true, some, [], ◌∷◌, ◌++◌, arith,
  length, replicate, codes, NoNul,
}

abbrev environment : Environment
environment = record {
  storage_dir = codes "/images";
  password = codes "secret";
  num_of_share = pos 5;
  key_threshold = pos 3;
  cmd_hdr_size = 8;
  after = [];
  usable = λ n. (n + 23) / 16 * 16 - 8;
  can_create = λ name. true;
  generate_share_strings = λ secret n t. [];
  aes_key = λ password. password;
  rand = λ n. n;
}

abbrev port : IoPort
port = record { port_type = 0; s = 4; timeout = 30 }

abbrev sample : Frame
sample = record {
  cid = replicate 23 65;
  hash = replicate 64 66;
  signed_hash = replicate 350 67;
  picture = record { rows = 2; cols = 2; channels = 1; bytes = 1 ∷ 0 ∷ 2 ∷ 255 ∷ [] };
}

abbrev state : State pipe scripted environment
state = record {
  net = record {
    incoming = sample.cid ++ (sample.hash ++ (sample.signed_hash ++ (sample.picture.bytes ++ [])));
    outgoing = [];
    chunk = 100;
  };
  db = script [] [];
  res_packet = make_packet 0 0 0 0;
  test_shares = [];
  files = [];
  draws = 0;
}

replicate-NoNul : (n c : ℕ) → c ≢ 0 → NoNul (replicate n c)
replicate-NoNul zero c h = tt
replicate-NoNul (suc n) c h = (h, replicate-NoNul n c h)

sample-IsFrame : IsFrame sample.cid sample.hash sample.signed_hash sample.picture.bytes
sample-IsFrame = record {
  cid_length = refl;
  cid_text = replicate-NoNul 23 65 (ground arith);
  hash_length = refl;
  hash_text = replicate-NoNul 64 66 (ground arith);
  signed_hash_length = refl;
  signed_hash_text = replicate-NoNul 350 67 (ground arith);
  frame_length = ground arith;
}

sample-HasRoom : HasRoom environment 441
sample-HasRoom = record {
  buffer = ground arith;
  cid_room = ground arith;
  hash_room = ground arith;
  signed_hash_room = ground arith;
}

frame_delivered_example :
    cmd_parser pipe scripted environment port
      (read_header (header_bytes (video_header (server_sizes 4))))
      state
    ≡ some (
      pos 0,
      stored_state environment sample.cid sample.hash sample.signed_hash sample.picture.bytes []
          state,
    )
frame_delivered_example =
    frame_delivered environment port sample [] state sample-IsFrame sample-HasRoom refl
      (ground arith) refl

abbrev request : HeaderPacket
request = record { start_id = 16; dest_id = 18; command = 0xe0; data_type = 0xa0; data_size = 2 }

abbrev asking : State pipe scripted environment
asking = record state { net = record { incoming = codes "53"; outgoing = []; chunk = 100 } }

request_text_53 : request_text 5 3 ≡ codes "53"
unfolding decimal
request_text_53 = refl

shares_generated_as_requested_example :
    test_gen_shares pipe scripted environment request port asking
    ≡ some (
      pos 1,
      record asking {
        net = record { incoming = []; outgoing = []; chunk = 100 };
        test_shares = lines [];
      },
    )
shares_generated_as_requested_example =
    shares_generated_as_requested environment port request 5 3 [] asking (ground arith)
      (ground arith) refl (ap length (sym request_text_53))
      (ap (λ l. l ++ []) (sym request_text_53)) (ground arith) refl
