-- ===== src/Session/ShareAnswer.antt =====
-- A client's request for its share of the key, and the server's answer.
use logger_verifier.Base.Decimal.{pos, decimal, atoi, atoi-one, decimal_one}
use logger_verifier.Database.Queries.{last_cell, free_share_text, update_text}
use logger_verifier.Database.Scripted.{scripted, next_answer}
use logger_verifier.Database.Sessions.{script, skip, get_share-log}
use logger_verifier.Server.Acks.{cmd_parser_found}
use logger_verifier.Server.Arrivals.{with_net, receive-pipe}
use logger_verifier.Server.Dispatch.{
  share_requested, parser_desp, find_command, reply_of, callback, cmd_parser,
}
use logger_verifier.Server.Handlers.{with_data, share_request}
use logger_verifier.Server.State.{Environment, State, on_database}
use logger_verifier.Session.Registration.{respond-pipe, key_text}
use logger_verifier.Wire.Packet.{
  HeaderPacket, header_bytes, read_header, client_make_packet, make_packet, server, char_data,
  share_res_cmd, read_header-make_packet,
}
use logger_verifier.Wire.Pipe.{pipe}
use logger_verifier.Wire.Transfer.{IoPort}
use logger_verifier.Base.{
  ℕ, ◌+◌, ◌≤◌, ◌<◌, ◌≡◌, refl, ap, ◌∙◌, some, List, [], ◌∷◌, ◌++◌, arith, length, drop, codes,
}

-- The command of the request.
abbrev pub share_req_cmd : ℕ
share_req_cmd = 0x82

-- The header of a request for the share of an LID of one digit.
abbrev pub share_header : HeaderPacket
share_header = client_make_packet server share_req_cmd char_data 1

share_header-read :
    ((read_header (header_bytes share_header)).command ≡ share_req_cmd)
    × ((read_header (header_bytes share_header)).data_size ≡ 1)
share_header-read =
    let (e, l) =
      read_header-make_packet server share_req_cmd char_data 1 (omega arith) (omega arith)
        (omega arith) (omega arith) in
    (ap (λ h. h.command) e, ap (λ h. h.data_size) e)

share_found :
    (h : HeaderPacket)
    → h.command ≡ share_req_cmd
    → find_command parser_desp h.command ≡ some share_requested
unfolding find_command
share_found h e = rw e refl

-- The second text that the server's database gets.
abbrev pub taken_text : ℕ → List ℕ → List ℕ
taken_text n share =
    update_text (drop n (codes "LID = ")) (codes "shares") (codes "share = '" ++ share ++ codes "'")

module _ (E : Environment) where
  abbrev pub share_packet : List ℕ → HeaderPacket
  share_packet share = make_packet server share_res_cmd char_data (length share)

  -- The state once `share` is the answer to the LID `n`, `rest` standing behind the request.
  abbrev pub shared_state : ℕ → List ℕ → List ℕ → State pipe scripted E → State pipe scripted E
  shared_state n share rest st = record st {
    net = record st.net {
      incoming = rest;
      outgoing = (st.net.outgoing ++ header_bytes (share_packet share)) ++ share;
    };
    db = script (skip 2 st.db.answers) (st.db.log ++ free_share_text ∷ taken_text n share ∷ []);
    res_packet = share_packet share;
  }

  share_request-answers :
      (p : IoPort) (h : HeaderPacket) (n : ℕ) (share rest : List ℕ) (st : State pipe scripted E)
      → h.data_size ≡ 1
      → n ≤ 6
      → 0 < length share
      → length share < 1900
      → E.after ≡ []
      → st.net.incoming ≡ decimal n ++ rest
      → 0 < st.net.chunk
      → last_cell [] (next_answer st.db.answers) ≡ some share
      → share_request pipe scripted E h p st ≡ some (pos 1, shared_state n share rest st)
  unfolding share_request with_data on_database
  share_request-answers p h n share rest st size small some_share short after arrived hc found =
      let digit : decimal n ≡ (n + 48) ∷ [] = decimal_one n (omega arith) in
      let arrived1 : st.net.incoming ≡ ((n + 48) ∷ []) ++ rest =
        arrived ∙ ap (λ l. l ++ rest) digit in
      let got = receive-pipe E p ((n + 48) ∷ []) rest st arrived1 hc (omega arith) in
      let read = key_text E ((n + 48) ∷ []) (ground arith, tt) after in
      let number = ap atoi read ∙ atoi-one n (omega arith) in
      let taken = get_share-log n share st.db.answers st.db.log small short found in
      let st1 = record (with_net E st (record st.net { incoming = rest })) {
        db = script (skip 2 st.db.answers) (st.db.log ++ free_share_text ∷ taken_text n share ∷ []);
      } in
      let sent = respond-pipe E p server share_res_cmd share st1 hc some_share in ground arith

  -- When the header of a request for a share has been read, and the LID has arrived, a digit from 0
  -- to 6, `cmd_parser` returns 0. The server has asked for a free share and answers with it, in a
  -- packet whose destination is the server itself. The text that should mark the share as taken
  -- sets a tail of the literal "LID = ", from the character on that the LID counts off, and names
  -- no LID. The share has from 1 to 1899 bytes, and a NUL stands behind the buffer.
  pub share_answered :
      (p : IoPort) (n : ℕ) (share rest : List ℕ) (st : State pipe scripted E)
      → n ≤ 6
      → 0 < length share
      → length share < 1900
      → E.after ≡ []
      → st.net.incoming ≡ decimal n ++ rest
      → 0 < st.net.chunk
      → last_cell [] (next_answer st.db.answers) ≡ some share
      → cmd_parser pipe scripted E p (read_header (header_bytes share_header)) st
        ≡ some (pos 0, shared_state n share rest st)
  unfolding reply_of callback
  share_answered p n share rest st small some_share short after arrived hc found =
      let h = read_header (header_bytes share_header) in
      let (command, size) = share_header-read in
      let answers =
        share_request-answers p h n share rest st size small some_share short after arrived hc
          found in
      cmd_parser_found pipe scripted E p h st (shared_state n share rest st) share_requested (pos 1)
        (share_found h command) answers
