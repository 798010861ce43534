-- ===== src/Server/Dispatch.antt =====
-- The table `parser_desp` and `cmd_parser` of command_parser/command_parser.cpp.
use logger_verifier.Base.Decimal.{ℤ, pos, negsuc}
use logger_verifier.Base.Run.{Run, pure, fault, ◌>>=◌, ◌>>◌}
use logger_verifier.Database.Mysql.{Mysql}
use logger_verifier.Server.Handlers.{
  Handler, hi_i_am, return_one, public_key_request, print_data, generate_aes, share_request,
  another_share_request, another_share_response, test, test_gen_shares, test_share_req,
  test_share_res,
}
use logger_verifier.Server.State.{Environment, State}
use logger_verifier.Server.Video.{video_data_send}
use logger_verifier.Wire.Network.{Network}
use logger_verifier.Wire.Packet.{HeaderPacket}
use logger_verifier.Wire.Transfer.{IoPort}
use logger_verifier.Base.{ℕ, Option, none, some, List, [], ◌∷◌, ◌==◌, if◌then◌else◌}

-- The commands of the table.
pub data Command : Type 0 where
  public_key_requested public_key_answered video_data_sent video_data_answered : Command
  verify_requested verify_answered verify_passed prover_answered : Command
  greeted welcomed aes_wanted share_requested share_answered : Command
  another_share_requested another_share_answered : Command
  test_sent test_shares_wanted shares_generated test_share_requested test_share_answered : Command

-- The codes, in the table's order; each stands once.
abbrev pub parser_desp : List (ℕ × Command)
parser_desp =
    (0x01, public_key_requested)
    ∷ (0xf1, public_key_answered)
    ∷ (0x02, video_data_sent)
    ∷ (0xf2, video_data_answered)
    ∷ (0x03, verify_requested)
    ∷ (0xf3, verify_answered)
    ∷ (0x04, verify_passed)
    ∷ (0xf4, prover_answered)
    ∷ (0x09, greeted)
    ∷ (0xf9, welcomed)
    ∷ (0x80, aes_wanted)
    ∷ (0x82, share_requested)
    ∷ (0x83, share_answered)
    ∷ (0x84, another_share_requested)
    ∷ (0x85, another_share_answered)
    ∷ (0xff, test_sent)
    ∷ (0xe0, test_shares_wanted)
    ∷ (0xe1, shares_generated)
    ∷ (0xe2, test_share_requested)
    ∷ (0xe3, test_share_answered)
    ∷ []

-- The loop of `cmd_parser` over the table.
unfoldable pub find_command : List (ℕ × Command) → ℕ → Option Command
find_command [] code = none
find_command ((c, f) ∷ table) code =
    let rest = find_command table code in if c == code then some f else rest

-- The `switch` on the handler's result.
unfoldable pub reply_of : ℤ → ℤ
reply_of (pos n) = pos 0
reply_of (negsuc n) = if n == 2 then negsuc 0 else pos 0

module _ (N : Network) (D : Mysql) (E : Environment) where
  -- The functions of the table.
  unfoldable pub callback : Command → Handler N D E
  unfolding test_share_req test_share_res
  callback public_key_requested = public_key_request N D E
  callback public_key_answered = print_data N D E
  callback video_data_sent = video_data_send N D E
  callback video_data_answered = return_one N D E
  callback verify_requested = return_one N D E
  callback verify_answered = return_one N D E
  callback verify_passed = return_one N D E
  callback prover_answered = return_one N D E
  callback greeted = hi_i_am N D E
  callback welcomed = return_one N D E
  callback aes_wanted = generate_aes N D E
  callback share_requested = share_request N D E
  callback share_answered = print_data N D E
  callback another_share_requested = another_share_request N D E
  callback another_share_answered = another_share_response N D E
  callback test_sent = test N D E
  callback test_shares_wanted = test_gen_shares N D E
  callback shares_generated = return_one N D E
  callback test_share_requested = λ h p. test_share_req N D E h p >> fault
  callback test_share_answered = λ h p. test_share_res N D E h p >> fault

  unfoldable pub run_command : Option Command → HeaderPacket → IoPort → Run (State N D E) ℤ
  unfolding callback
  run_command none h p = pure (negsuc 2)
  run_command (some c) h p = callback c h p

  -- `ack` is -3 where no code matches.
  unfoldable pub cmd_parser : IoPort → HeaderPacket → Run (State N D E) ℤ
  unfolding find_command run_command reply_of
  cmd_parser p h = do
    ack ← run_command (find_command parser_desp h.command) h p
    pure (reply_of ack)
