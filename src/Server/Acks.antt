-- ===== src/Server/Acks.antt =====
-- What the handlers and `cmd_parser` return.
use logger_verifier.Base.Decimal.{ℤ, pos, negsuc}
use logger_verifier.Base.Run.{Run, pure, ◌>>=◌}
use logger_verifier.Database.Mysql.{Mysql}
use logger_verifier.Server.Dispatch.{
  Command, public_key_requested, public_key_answered, video_data_sent, video_data_answered,
  verify_requested, verify_answered, verify_passed, prover_answered, greeted, welcomed, aes_wanted,
  share_requested, share_answered, another_share_requested, another_share_answered, test_sent,
  test_shares_wanted, shares_generated, test_share_requested, test_share_answered, parser_desp,
  find_command, reply_of, callback, run_command, cmd_parser,
}
use logger_verifier.Server.Handlers.{
  with_data, hi_i_am, return_one, public_key_request, print_data, generate_aes, share_request,
  send_ano_shares, another_share_request, receive_shares, another_share_response, test,
  test_gen_shares,
}
use logger_verifier.Server.State.{Environment, State, receive}
use logger_verifier.Server.Video.{video_data_send}
use logger_verifier.Wire.Network.{Network}
use logger_verifier.Wire.Packet.{HeaderPacket}
use logger_verifier.Wire.Transfer.{IoPort}
use logger_verifier.Base.{
  ℕ, zero, suc, ◌≡◌, refl, sym, ap, ◌∙◌, ◌⊎◌, inl, inr, Bool, true, Option, none, some, arith, ◌==◌,
  Bool-cases, Option-cases,
}

abbrev acknowledges : ℤ → Bool
acknowledges (pos n) = n == 1
acknowledges (negsuc n) = n == 0

-- A run that is undefined, or returns 1 or -1.
unfoldable pub acknowledged : {W : Type 0} → Option (ℤ × W) → Bool
acknowledged none = true
acknowledged (some (r, w)) = acknowledges r

reply-acknowledged : (r : ℤ) → acknowledges r ≡ true → reply_of r ≡ pos 0
unfolding reply_of
reply-acknowledged (pos n) h = refl
reply-acknowledged (negsuc n) h = ground arith

acknowledged-some : {W : Type 0} (r : ℤ) (w : W) → acknowledges r ≡ acknowledged (some (r, w))
unfolding acknowledged
acknowledged-some r w = refl

replies_some :
    {W : Type 0} (m : Run W ℤ) (w : W)
    → acknowledged (m w) ≡ true
    → ((m >>= λ ack. pure (reply_of ack)) w ≡ none)
      ⊎ ((w' : W) × ((m >>= λ ack. pure (reply_of ack)) w ≡ some (pos 0, w')))
replies_some m w h = elim (Option-cases (m w)) [
  | inl f ↦ inl (rw (f, ◌>>=◌) refl)
  | inr ((r, w'), f) ↦ inr (
    w',
    rw (f, ◌>>=◌)
        (ap (λ v. some (v, w'))
          (reply-acknowledged r (acknowledged-some r w' ∙ ap acknowledged (sym f) ∙ h))),
  )
]

module _ (N : Network) (D : Mysql) (E : Environment) where
  return_one-acknowledged :
      (h : HeaderPacket) (p : IoPort) (st : State N D E)
      → acknowledged (return_one N D E h p st) ≡ true
  unfolding return_one acknowledged
  return_one-acknowledged h p st = ground arith

  hi_i_am-acknowledged :
      (h : HeaderPacket) (p : IoPort) (st : State N D E)
      → acknowledged (hi_i_am N D E h p st) ≡ true
  unfolding hi_i_am acknowledged
  hi_i_am-acknowledged h p st = ground arith

  public_key_request-acknowledged :
      (h : HeaderPacket) (p : IoPort) (st : State N D E)
      → acknowledged (public_key_request N D E h p st) ≡ true
  unfolding public_key_request acknowledged with_data
  public_key_request-acknowledged h p st = ground arith

  print_data-acknowledged :
      (h : HeaderPacket) (p : IoPort) (st : State N D E)
      → acknowledged (print_data N D E h p st) ≡ true
  unfolding print_data acknowledged with_data
  print_data-acknowledged h p st = ground arith

  generate_aes-acknowledged :
      (h : HeaderPacket) (p : IoPort) (st : State N D E)
      → acknowledged (generate_aes N D E h p st) ≡ true
  unfolding generate_aes acknowledged
  generate_aes-acknowledged h p st = ground arith

  share_request-acknowledged :
      (h : HeaderPacket) (p : IoPort) (st : State N D E)
      → acknowledged (share_request N D E h p st) ≡ true
  unfolding share_request acknowledged with_data
  share_request-acknowledged h p st = ground arith

  another_share_request-acknowledged :
      (h : HeaderPacket) (p : IoPort) (st : State N D E)
      → acknowledged (another_share_request N D E h p st) ≡ true
  unfolding another_share_request acknowledged with_data send_ano_shares
  another_share_request-acknowledged h p st = ground arith

  test-acknowledged :
      (h : HeaderPacket) (p : IoPort) (st : State N D E) → acknowledged (test N D E h p st) ≡ true
  unfolding test acknowledged with_data
  test-acknowledged h p st = ground arith

  test_gen_shares-acknowledged :
      (h : HeaderPacket) (p : IoPort) (st : State N D E)
      → acknowledged (test_gen_shares N D E h p st) ≡ true
  unfolding test_gen_shares acknowledged with_data
  test_gen_shares-acknowledged h p st = ground arith

  video_data_send-acknowledged :
      (h : HeaderPacket) (p : IoPort) (st : State N D E)
      → acknowledged (video_data_send N D E h p st) ≡ true
  unfolding video_data_send acknowledged
  video_data_send-acknowledged h p st = ground arith

  receive_shares-acknowledged :
      (n : ℕ) (p : IoPort) (size : ℕ) (st : State N D E)
      → acknowledged (receive_shares N D E n p size st) ≡ true
  unfolding receive_shares acknowledged with_data
  receive_shares-acknowledged zero p size st = refl
  receive_shares-acknowledged (suc n) p size st = elim (Option-cases (receive N D E p size st)) [
    | inl e ↦ rw (e, acknowledged) refl
    | inr ((m, st'), e) ↦
        rw (e, acknowledged)
          (elim (Bool-cases m.complete) [
            | inl c ↦ rw c (receive_shares-acknowledged n p size st')
            | inr c ↦ rw c refl
          ])
  ]

  run_command-acknowledged :
      (c : Command) (h : HeaderPacket) (p : IoPort) (st : State N D E)
      → acknowledged (run_command N D E (some c) h p st) ≡ true
  unfolding run_command callback another_share_response acknowledged
  run_command-acknowledged public_key_requested h p st = public_key_request-acknowledged h p st
  run_command-acknowledged public_key_answered h p st = print_data-acknowledged h p st
  run_command-acknowledged video_data_sent h p st = video_data_send-acknowledged h p st
  run_command-acknowledged video_data_answered h p st = return_one-acknowledged h p st
  run_command-acknowledged verify_requested h p st = return_one-acknowledged h p st
  run_command-acknowledged verify_answered h p st = return_one-acknowledged h p st
  run_command-acknowledged verify_passed h p st = return_one-acknowledged h p st
  run_command-acknowledged prover_answered h p st = return_one-acknowledged h p st
  run_command-acknowledged greeted h p st = hi_i_am-acknowledged h p st
  run_command-acknowledged welcomed h p st = return_one-acknowledged h p st
  run_command-acknowledged aes_wanted h p st = generate_aes-acknowledged h p st
  run_command-acknowledged share_requested h p st = share_request-acknowledged h p st
  run_command-acknowledged share_answered h p st = print_data-acknowledged h p st
  run_command-acknowledged another_share_requested h p st =
      another_share_request-acknowledged h p st
  run_command-acknowledged another_share_answered h p st =
      receive_shares-acknowledged 4 p h.data_size st
  run_command-acknowledged test_sent h p st = test-acknowledged h p st
  run_command-acknowledged test_shares_wanted h p st = test_gen_shares-acknowledged h p st
  run_command-acknowledged shares_generated h p st = return_one-acknowledged h p st
  run_command-acknowledged test_share_requested h p st = ground arith
  run_command-acknowledged test_share_answered h p st = refl

  -- What `cmd_parser` does to the state and returns, by the command found.
  abbrev pub Replies : Option Command → State N D E → Option (ℤ × State N D E) → Type 0
  Replies none st o = o ≡ some (negsuc 0, st)
  Replies (some c) st o = (o ≡ none) ⊎ ((st' : State N D E) × (o ≡ some (pos 0, st')))

  -- `cmd_parser` refuses a command that the table does not have with -1 and leaves the state as it
  -- is. For every command of the table it returns 0, whether the handler fails or not, unless the
  -- handler runs into undefined behaviour.
  pub cmd_parser-Replies :
      (p : IoPort) (h : HeaderPacket) (st : State N D E)
      → Replies (find_command parser_desp h.command) st (cmd_parser N D E p h st)
  unfolding cmd_parser
  cmd_parser-Replies p h st = elim (Option-cases (find_command parser_desp h.command)) [
    | inl e ↦ rw (e, run_command) refl
    | inr (c, e) ↦
        rw e (replies_some (run_command N D E (some c) h p) st (run_command-acknowledged c h p st))
  ]

  pub cmd_parser_found :
      (p : IoPort) (h : HeaderPacket) (st st' : State N D E) (c : Command) (r : ℤ)
      → find_command parser_desp h.command ≡ some c
      → callback N D E c h p st ≡ some (r, st')
      → cmd_parser N D E p h st ≡ some (reply_of r, st')
  unfolding cmd_parser run_command
  cmd_parser_found p h st st' c r found run = rw found (ground (arith, run))
