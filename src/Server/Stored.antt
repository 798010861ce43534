-- ===== src/Server/Stored.antt =====
-- `video_data_send` on a frame that has arrived as a whole.
use logger_verifier.Base.Decimal.{pos}
use logger_verifier.Database.Queries.{insert_video_data, insert_video_text}
use logger_verifier.Database.Scripted.{scripted, later_answers}
use logger_verifier.Database.Sessions.{script, insert_video_data-log}
use logger_verifier.Server.State.{Environment, State, on_database, make_res_packet, send_res_packet}
use logger_verifier.Server.Video.{
  cid_size, hash_size, signed_hash_size, frame_size, read_text, frame_path, video_data_send,
}
use logger_verifier.Wire.Packet.{HeaderPacket, make_packet, header_bytes, logger, video_data_res}
use logger_verifier.Wire.Pipe.{pipe}
use logger_verifier.Wire.Transfer.{IoPort}
use logger_verifier.Base.{
  ℕ, ◌+◌, ◌-◌, ◌^◌, ◌≤◌, ◌<◌, ◌≡◌, refl, sym, ap, ◌∙◌, subst, true, some, List, [], ◌∷◌, ◌++◌,
  arith, length, NoNul,
}
use logger_verifier.Server.Arrivals.{with_net, read_text-pipe, store_frame-pipe, transmit-pipe}

-- The three texts of a frame have their full lengths, and no NUL.
pub record IsFrame (cid hash signed_hash frame : List ℕ) : Type 0 where
  pub cid_length : length cid ≡ cid_size
  pub cid_text : NoNul cid
  pub hash_length : length hash ≡ hash_size
  pub hash_text : NoNul hash
  pub signed_hash_length : length signed_hash ≡ signed_hash_size
  pub signed_hash_text : NoNul signed_hash
  pub frame_length : length frame < 2 ^ 31 - 437

-- The allocator gives what it is asked for, and for each of the three texts the byte of its NUL
-- too.
pub record HasRoom (E : Environment) (size : ℕ) : Type 0 where
  pub buffer : size ≤ E.usable size
  pub cid_room : cid_size < E.usable cid_size
  pub hash_room : hash_size < E.usable hash_size
  pub signed_hash_room : signed_hash_size < E.usable signed_hash_size

module _ (E : Environment) where
  insert-scripted :
      (cid hash signed_hash : List ℕ) (st : State pipe scripted E)
      → length cid ≤ 23
      → length hash ≤ 64
      → length signed_hash ≤ 350
      → on_database pipe scripted E (insert_video_data scripted cid hash signed_hash) st
        ≡ some (
          tt,
          record st {
            db =
                script
                  (later_answers st.db.answers)
                  (st.db.log ++ insert_video_text cid hash signed_hash ∷ []);
          },
        )
  unfolding on_database
  insert-scripted cid hash signed_hash st hc hh hs =
      let e = insert_video_data-log cid hash signed_hash st.db.answers st.db.log hc hh hs in
      ground arith

  frame_size-sum : (n : ℕ) → n < 2 ^ 31 - 437 → frame_size (437 + n) ≡ some n
  unfolding frame_size
  frame_size-sum n h = ground arith

  abbrev pub answer_packet : HeaderPacket
  answer_packet = make_packet logger video_data_res 0 0

  -- The state after a frame was stored, `rest` being what stood behind it.
  abbrev pub stored_state :
      (cid hash signed_hash frame rest : List ℕ) → State pipe scripted E → State pipe scripted E
  stored_state cid hash signed_hash frame rest st = record st {
    net = record st.net {
      incoming = rest;
      outgoing = st.net.outgoing ++ header_bytes answer_packet;
    };
    db =
        script (later_answers st.db.answers)
          (st.db.log ++ insert_video_text cid hash signed_hash ∷ []);
    res_packet = answer_packet;
    files = st.files ++ (frame_path pipe scripted E cid, frame) ∷ [];
  }

  send_res_packet-pipe :
      (p : IoPort) (st : State pipe scripted E)
      → 0 < st.net.chunk
      → send_res_packet pipe scripted E p st
        ≡ some (
          tt,
          with_net E st
              (record st.net { outgoing = st.net.outgoing ++ header_bytes st.res_packet }),
        )
  unfolding send_res_packet
  send_res_packet-pipe p st hc = transmit-pipe E p (header_bytes st.res_packet) st hc (omega arith)

  make_res_packet-pipe :
      (st : State pipe scripted E)
      → make_res_packet pipe scripted E logger video_data_res 0 0 st
        ≡ some (tt, record st { res_packet = answer_packet })
  unfolding make_res_packet
  make_res_packet-pipe st = refl

  -- When a frame has arrived as a whole, its CID, hash, signed hash and picture one after the
  -- other, with the size in the header their sum, `video_data_send` returns 1, stores exactly the
  -- picture under the CID in the storage directory, sends exactly one insertion with the three
  -- texts to the database, answers with the header VIDEO_DATA_RES to the logger, and leaves what
  -- stands behind the frame unread. Memory must have room for the NUL of the three texts, and the
  -- file must be creatable.
  pub video_data_send-stores :
      (p : IoPort) (h : HeaderPacket) (cid hash signed_hash frame rest : List ℕ)
      (st : State pipe scripted E)
      → IsFrame cid hash signed_hash frame
      → h.data_size ≡ 437 + length frame
      → HasRoom E h.data_size
      → st.net.incoming ≡ cid ++ (hash ++ (signed_hash ++ (frame ++ rest)))
      → 0 < st.net.chunk
      → E.can_create (frame_path pipe scripted E cid) ≡ true
      → video_data_send pipe scripted E h p st
        ≡ some (pos 1, stored_state cid hash signed_hash frame rest st)
  unfolding video_data_send
  video_data_send-stores p h cid hash signed_hash frame rest st ok size room arrived hc can =
      let w1 =
        with_net E st (record st.net { incoming = hash ++ (signed_hash ++ (frame ++ rest)) }) in
      let w2 = with_net E st (record st.net { incoming = signed_hash ++ (frame ++ rest) }) in
      let w3 = with_net E st (record st.net { incoming = frame ++ rest }) in
      let e1 =
        read_text-pipe E p h.data_size cid (hash ++ (signed_hash ++ (frame ++ rest))) st arrived hc
          (omega (arith, ok.cid_length)) (omega (arith, ok.cid_length)) room.buffer
          (subst (λ n. n < E.usable n) (sym ok.cid_length) room.cid_room) ok.cid_text in
      let e2 =
        read_text-pipe E p h.data_size hash (signed_hash ++ (frame ++ rest)) w1 refl hc
          (omega (arith, ok.hash_length)) (omega (arith, ok.hash_length)) room.buffer
          (subst (λ n. n < E.usable n) (sym ok.hash_length) room.hash_room) ok.hash_text in
      let e3 =
        read_text-pipe E p h.data_size signed_hash (frame ++ rest) w2 refl hc
          (omega (arith, ok.signed_hash_length)) (omega (arith, ok.signed_hash_length)) room.buffer
          (subst (λ n. n < E.usable n) (sym ok.signed_hash_length) room.signed_hash_room)
          ok.signed_hash_text in
      let n4 : frame_size h.data_size ≡ some (length frame) =
        ap frame_size size ∙ frame_size-sum (length frame) ok.frame_length in
      let e4 =
        store_frame-pipe E p h.data_size cid frame rest w3 refl hc (omega (arith, ok.frame_length))
          (omega (arith, room.buffer, size)) can in
      let w4 = record (with_net E st (record st.net { incoming = rest })) {
        files = st.files ++ (frame_path pipe scripted E cid, frame) ∷ [];
      } in
      let w5 = record w4 { res_packet = answer_packet } in
      let e5 =
        insert-scripted cid hash signed_hash w5 (omega (arith, ok.cid_length))
          (omega (arith, ok.hash_length)) (omega (arith, ok.signed_hash_length)) in
      let w6 = record w5 {
        db =
            script (later_answers st.db.answers)
              (st.db.log ++ insert_video_text cid hash signed_hash ∷ []);
      } in
      let e6 = send_res_packet-pipe p w6 hc in
      let c1 : read_text pipe scripted E p h.data_size cid_size st ≡ some (cid, w1) =
        subst (λ n. read_text pipe scripted E p h.data_size n st ≡ some (cid, w1)) ok.cid_length
          e1 in
      let c2 : read_text pipe scripted E p h.data_size hash_size w1 ≡ some (hash, w2) =
        subst (λ n. read_text pipe scripted E p h.data_size n w1 ≡ some (hash, w2)) ok.hash_length
          e2 in
      let c3 : read_text pipe scripted E p h.data_size signed_hash_size w2
          ≡ some (signed_hash, w3) =
        subst (λ n. read_text pipe scripted E p h.data_size n w2 ≡ some (signed_hash, w3))
          ok.signed_hash_length e3 in
      let e7 = make_res_packet-pipe w4 in ground arith
