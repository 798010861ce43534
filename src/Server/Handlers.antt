-- ===== src/Server/Handlers.antt =====
-- The handlers of command_parser/command_function_list.cpp, but `video_data_send`. A handler
-- returns the source's `int`.
use logger_verifier.Base.Decimal.{ℤ, pos, negsuc, atoi}
use logger_verifier.Base.Run.{Run, pure, fault, ◌>>=◌, ◌>>◌}
use logger_verifier.Database.Mysql.{Mysql}
use logger_verifier.Database.Queries.{insert_pk_database, get_share, get_ano_shares}
use logger_verifier.Server.Shares.{generate_shares, test_share_gen, test_get_share}
use logger_verifier.Server.State.{
  Environment, State, receive, transmit, on_database, make_res_packet, send_res_packet, respond,
  write_file, buffer_text,
}
use logger_verifier.Wire.Network.{Network}
use logger_verifier.Wire.Packet.{
  HeaderPacket, logger, server, char_data, pubkey_res, share_res_cmd, ano_share_res_cmd,
  nice_2_meet_u, test_share_req_cmd,
}
use logger_verifier.Wire.Transfer.{IoPort}
use logger_verifier.Base.{
  ℕ, zero, suc, ◌/◌, ◌%◌, true, false, List, [], ◌∷◌, ◌==◌, if◌then◌else◌, length, codes, c_string,
}

-- C's `/` and `%` by 10, which round towards zero.
abbrev negated : ℕ → ℤ
negated zero = pos 0
negated (suc n) = negsuc n

unfoldable pub tenths : ℤ → ℤ
tenths (pos n) = pos (n / 10)
tenths (negsuc n) = negated (suc n / 10)

unfoldable pub units : ℤ → ℤ
units (pos n) = pos (n % 10)
units (negsuc n) = negated (suc n % 10)

module _ (N : Network) (D : Mysql) (E : Environment) where
  abbrev pub Handler : Type 0
  Handler = HeaderPacket → IoPort → Run (State N D E) ℤ

  -- `if (recv_binary(port, msg->dataSize, recv_buf) == 0) return -1;`, then the rest.
  unfoldable pub with_data : IoPort → ℕ → (List ℕ → Run (State N D E) ℤ) → Run (State N D E) ℤ
  unfolding receive
  with_data p size k = do
    m ← receive N D E p size
    elim m.complete [ true ↦ k m.bytes | false ↦ pure (negsuc 0) ]

  -- `insert_port` takes and releases a lock, and stores nothing.
  unfoldable pub hi_i_am : Handler
  unfolding make_res_packet send_res_packet
  hi_i_am h p = do
    make_res_packet N D E h.start_id nice_2_meet_u 0 0
    send_res_packet N D E p
    pure (pos 1)

  -- `nice_to_meet_you`, `video_data_response`, `verify_request`, `verify_response`,
  -- `verify_to_prover`, `prover_response` and `gen_share_res`.
  unfoldable pub return_one : Handler
  return_one h p = pure (pos 1)

  -- The CID that is passed as `key_ID` is not used, and stands here as the empty text.
  unfoldable pub public_key_request : Handler
  unfolding with_data on_database respond insert_pk_database
  public_key_request h p = with_data p h.data_size (λ bytes. do
    lid ← on_database N D E (insert_pk_database D [] (buffer_text N D E bytes))
    respond N D E p h.start_id pubkey_res char_data lid
    pure (pos 1))

  -- `public_key_response` and `share_response` print what they receive.
  unfoldable pub print_data : Handler
  unfolding with_data
  print_data h p = with_data p h.data_size (λ bytes. pure (pos 1))

  unfoldable pub generate_aes : Handler
  unfolding generate_shares
  generate_aes h p = do generate_shares N D E; pure (pos 1)

  unfoldable pub share_request : Handler
  unfolding with_data on_database respond get_share atoi
  share_request h p = with_data p h.data_size (λ bytes. do
    share ← on_database N D E (get_share D (atoi (buffer_text N D E bytes)))
    respond N D E p server share_res_cmd char_data share
    pure (pos 1))

  unfoldable pub send_shares : IoPort → List (List ℕ) → Run (State N D E) (Unit {0})
  unfolding transmit
  send_shares p [] = pure tt
  send_shares p (s ∷ ss) = transmit N D E p s >> send_shares p ss

  -- `share[0]` of an empty vector is undefined. The header has the length of the first share.
  unfoldable pub send_ano_shares : IoPort → List (List ℕ) → Run (State N D E) ℤ
  unfolding make_res_packet send_res_packet send_shares
  send_ano_shares p [] = fault
  send_ano_shares p (s ∷ ss) = do
    make_res_packet N D E server ano_share_res_cmd char_data (length s)
    send_res_packet N D E p
    send_shares p (s ∷ ss)
    pure (pos 1)

  unfoldable pub another_share_request : Handler
  unfolding with_data on_database get_ano_shares send_ano_shares atoi
  another_share_request h p = with_data p h.data_size (λ bytes. do
    shares ← on_database N D E (get_ano_shares D (atoi (buffer_text N D E bytes)) E.key_threshold)
    send_ano_shares p shares)

  unfoldable pub receive_shares : ℕ → IoPort → ℕ → Run (State N D E) ℤ
  unfolding with_data
  receive_shares zero p size = pure (pos 1)
  receive_shares (suc n) p size = with_data p size (λ bytes. receive_shares n p size)

  -- Four shares, each of the length that the header gives.
  unfoldable pub another_share_response : Handler
  unfolding receive_shares
  another_share_response h p = receive_shares 4 p h.data_size

  -- From 2^31 on nothing is received, and the file gets what memory holds.
  unfoldable pub test : Handler
  unfolding with_data write_file
  test h p = with_data p h.data_size (λ bytes.
      if length bytes == h.data_size
      then (write_file N D E (codes "test.txt") bytes >> pure (pos 1))
      else fault)

  unfoldable pub test_gen_shares : Handler
  unfolding with_data test_share_gen tenths units atoi
  test_gen_shares h p = with_data p h.data_size (λ bytes. do
    let res = atoi (buffer_text N D E bytes)
    made ← test_share_gen N D E (tenths res) (units res)
    elim made [ true ↦ pure (pos 1) | false ↦ pure (negsuc 0) ])

  -- It has no `return`, so what it does at its end is undefined.
  unfoldable pub test_share_req : HeaderPacket → IoPort → Run (State N D E) (Unit {0})
  unfolding test_get_share respond
  test_share_req h p = do
    share ← test_get_share N D E
    respond N D E p logger test_share_req_cmd char_data (c_string share)

  -- Nor has this one, which is empty.
  unfoldable pub test_share_res : HeaderPacket → IoPort → Run (State N D E) (Unit {0})
  test_share_res h p = pure tt
