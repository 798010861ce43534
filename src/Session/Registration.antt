-- ===== src/Session/Registration.antt =====
-- The logger's public key on its way to the server's database, and the LID on its way back.
use logger_verifier.Base.Decimal.{ℤ, pos}
use logger_verifier.Database.Queries.{count_text, max_lid_text, last_cell, lid_exists}
use logger_verifier.Database.Scripted.{scripted, next_answer, later_answers}
use logger_verifier.Database.Sessions.{script, key_texts, skip, insert_pk_database-log}
use logger_verifier.Logger.Upload.{Memory, send_text, send_pub_key_to_server}
use logger_verifier.Logger.Delivery.{sent_more, send_bytes-pipe}
use logger_verifier.Server.Acks.{cmd_parser_found}
use logger_verifier.Server.Arrivals.{with_net, receive-pipe, transmit-pipe}
use logger_verifier.Server.Dispatch.{
  public_key_requested, parser_desp, find_command, reply_of, callback, cmd_parser,
}
use logger_verifier.Server.Handlers.{with_data, public_key_request}
use logger_verifier.Server.State.{
  Environment, State, on_database, make_res_packet, send_res_packet, respond, buffer_text,
}
use logger_verifier.Wire.Packet.{
  HeaderPacket, header_bytes, read_header, client_make_packet, make_packet, server, logger,
  char_data, pubkey_req, pubkey_res, read_header-make_packet,
}
use logger_verifier.Wire.Pipe.{PipeWorld, pipe}
use logger_verifier.Wire.Transfer.{IoPort}
use logger_verifier.Base.{
  ℕ, ◌<◌, ◌≡◌, refl, ap, ◌∙◌, true, some, List, [], ◌∷◌, ◌++◌, append-nil, append_assoc, arith, ltb,
  length, c_string, NoNul, c_string_self,
}

-- The header that `send_pubKey_to_server` sends for a key.
abbrev pub key_header : List ℕ → HeaderPacket
key_header key = client_make_packet server pubkey_req char_data (length key)

header_some : (h : HeaderPacket) → 0 < length (header_bytes h)
unfolding header_bytes
header_some h = omega arith

-- The logger's side: the header and the key, and nothing else.
pub send_pub_key_to_server-sends :
    (M : Memory) (p : IoPort) (key : List ℕ) (w : PipeWorld)
    → 0 < w.chunk
    → 0 < length key
    → length key < M.usable (length key)
    → send_pub_key_to_server pipe M p key w
      ≡ some (tt, sent_more M w (header_bytes (key_header key) ++ key))
unfolding send_pub_key_to_server send_text
send_pub_key_to_server-sends M p key w hc hk room =
    let fits : ltb (length key) (M.usable (length key)) ≡ true = ground arith in
    let head = header_bytes (key_header key) in
    let e1 = send_bytes-pipe M p head w hc (header_some (key_header key)) in
    let e2 = send_bytes-pipe M p key (sent_more M w head) hc hk in
    let all = append_assoc w.outgoing head key in ground arith

-- What the server reads of that header.
key_header-read :
    (key : List ℕ)
    → length key < 1900
    → ((read_header (header_bytes (key_header key))).start_id ≡ logger)
      × ((read_header (header_bytes (key_header key))).command ≡ pubkey_req)
      × ((read_header (header_bytes (key_header key))).data_size ≡ length key)
key_header-read key h =
    let (e, l) =
      read_header-make_packet server pubkey_req char_data (length key) (omega arith) (omega arith)
        (omega arith) (omega arith) in
    (ap (λ h. h.start_id) e, ap (λ h. h.command) e, ap (λ h. h.data_size) e)

key_found :
    (h : HeaderPacket)
    → h.command ≡ pubkey_req
    → find_command parser_desp h.command ≡ some public_key_requested
unfolding find_command
key_found h e = rw e refl

module _ (E : Environment) where
  -- The header of the answer.
  abbrev pub lid_packet : List ℕ → HeaderPacket
  lid_packet lid = make_packet logger pubkey_res char_data (length lid)

  -- `respond` sends the header with the length of the text, and the text.
  pub respond-pipe :
      (p : IoPort) (dest cmd : ℕ) (text : List ℕ) (st : State pipe scripted E)
      → 0 < st.net.chunk
      → 0 < length text
      → respond pipe scripted E p dest cmd char_data text st
        ≡ some (
          tt,
          record st {
            net = record st.net {
              outgoing =
                  (st.net.outgoing ++ header_bytes (make_packet dest cmd char_data (length text)))
                  ++ text;
            };
            res_packet = make_packet dest cmd char_data (length text);
          },
        )
  unfolding respond send_res_packet make_res_packet
  respond-pipe p dest cmd text st hc hl =
      let st1 = record st { res_packet = make_packet dest cmd char_data (length text) } in
      let e1 =
        transmit-pipe E p (header_bytes st1.res_packet) st1 hc (header_some st1.res_packet) in
      let st2 =
        with_net E st1
          (record st.net { outgoing = st.net.outgoing ++ header_bytes st1.res_packet }) in
      let e2 = transmit-pipe E p text st2 hc hl in ground arith

  -- The key as `recv_buf` holds it, with a NUL behind.
  pub key_text : (key : List ℕ) → NoNul key → E.after ≡ [] → buffer_text pipe scripted E key ≡ key
  key_text key text after =
      ap (λ a. c_string (key ++ a)) after ∙ ap c_string (append-nil key) ∙ c_string_self key text

  -- The state once `lid` is the answer to `key`, `n` loggers being found and `rest` standing behind
  -- the key.
  abbrev pub registered_state :
      ℤ → List ℕ → List ℕ → List ℕ → State pipe scripted E → State pipe scripted E
  registered_state n key lid rest st = record st {
    net = record st.net {
      incoming = rest;
      outgoing = (st.net.outgoing ++ header_bytes (lid_packet lid)) ++ lid;
    };
    db =
        script (later_answers (skip (length (key_texts n key)) (later_answers st.db.answers)))
          (((st.db.log ++ count_text ∷ []) ++ key_texts n key) ++ max_lid_text ∷ []);
    res_packet = lid_packet lid;
  }

  public_key_request-answers :
      (p : IoPort) (h : HeaderPacket) (n : ℤ) (key lid rest : List ℕ) (st : State pipe scripted E)
      → h.start_id ≡ logger
      → h.data_size ≡ length key
      → NoNul key
      → length key < 1900
      → 0 < length lid
      → E.after ≡ []
      → st.net.incoming ≡ key ++ rest
      → 0 < st.net.chunk
      → lid_exists (next_answer st.db.answers) ≡ some n
      → last_cell [] (next_answer (skip (length (key_texts n key)) (later_answers st.db.answers)))
        ≡ some lid
      → public_key_request pipe scripted E h p st ≡ some (pos 1, registered_state n key lid rest st)
  unfolding public_key_request with_data on_database
  public_key_request-answers p h n key lid rest st from size text short some_lid after arrived hc
        found highest =
      let got = receive-pipe E p key rest st arrived hc (omega arith) in
      let read = key_text key text after in
      let stored =
        insert_pk_database-log n [] key lid st.db.answers st.db.log short found highest in
      let st1 = record (with_net E st (record st.net { incoming = rest })) {
        db =
            script (later_answers (skip (length (key_texts n key)) (later_answers st.db.answers)))
              (((st.db.log ++ count_text ∷ []) ++ key_texts n key) ++ max_lid_text ∷ []);
      } in
      let sent = respond-pipe p h.start_id pubkey_res lid st1 hc some_lid in ground arith

  -- When the header that the logger sends for its public key has been read, and the key has
  -- arrived, `cmd_parser` returns 0, has stored the key under the texts that the number of loggers
  -- found calls for, and answers the logger with the highest LID, which it has read behind them.
  -- The key has no NUL and fewer than 1900 bytes, and a NUL stands behind the buffer.
  pub key_registered :
      (p : IoPort) (n : ℤ) (key lid rest : List ℕ) (st : State pipe scripted E)
      → NoNul key
      → length key < 1900
      → 0 < length lid
      → E.after ≡ []
      → st.net.incoming ≡ key ++ rest
      → 0 < st.net.chunk
      → lid_exists (next_answer st.db.answers) ≡ some n
      → last_cell [] (next_answer (skip (length (key_texts n key)) (later_answers st.db.answers)))
        ≡ some lid
      → cmd_parser pipe scripted E p (read_header (header_bytes (key_header key))) st
        ≡ some (pos 0, registered_state n key lid rest st)
  unfolding reply_of callback
  key_registered p n key lid rest st text short some_lid after arrived hc found highest =
      let h = read_header (header_bytes (key_header key)) in
      let (from, command, size) = key_header-read key short in
      let answers =
        public_key_request-answers p h n key lid rest st from size text short some_lid after arrived
          hc found highest in
      cmd_parser_found pipe scripted E p h st (registered_state n key lid rest st)
        public_key_requested (pos 1) (key_found h command) answers
