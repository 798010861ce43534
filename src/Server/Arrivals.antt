-- ===== src/Server/Arrivals.antt =====
-- What the buffers of the server hold when their bytes arrive on a byte stream.
use logger_verifier.Database.Scripted.{scripted}
use logger_verifier.Server.State.{
  Environment, State, sys_async_bufsize, moved, receive, transmit, write_file, buffer_text,
}
use logger_verifier.Server.Video.{
  cleared_buffer, fill_buffer, copy_text, read_text, frame_path, store_frame,
}
use logger_verifier.Wire.Pipe.{PipeWorld, pipe}
use logger_verifier.Wire.Steady.{recv_binary-pipe, send_binary-pipe}
use logger_verifier.Wire.Transfer.{IoPort}
use logger_verifier.Base.{
  ℕ, zero, suc, ◌-◌, ◌^◌, ◌≤◌, ◌<◌, ◌≡◌, refl, ap, ◌∙◌, true, some, List, [], ◌∷◌, ◌++◌,
  append_assoc, arith, ltb, leb, length, take, replicate, c_string, NoNul, c_string-NoNul,
}

take-append_self : (xs ys : List ℕ) → take (length xs) (xs ++ ys) ≡ xs
take-append_self [] ys = refl
take-append_self (x ∷ xs) ys = ap (λ l. x ∷ l) (take-append_self xs ys)

append-zeros :
    (a : List ℕ) (n : ℕ) (rest : List ℕ)
    → 0 < n
    → (a ++ replicate n 0) ++ rest ≡ a ++ 0 ∷ (replicate (n - 1) 0 ++ rest)
append-zeros a zero rest h = ground arith
append-zeros a (suc n) rest h =
    append_assoc a (0 ∷ replicate n 0) rest
    ∙ ap (λ k. a ++ 0 ∷ (replicate k 0 ++ rest)) (omega arith)

module _ (E : Environment) where
  abbrev pub with_net : State pipe scripted E → PipeWorld → State pipe scripted E
  with_net st w = record st { net = w }

  pub receive-pipe :
      (p : IoPort) (a b : List ℕ) (st : State pipe scripted E)
      → st.net.incoming ≡ a ++ b
      → 0 < st.net.chunk
      → length a < 2 ^ 31
      → receive pipe scripted E p (length a) st
        ≡ some (
          record { complete = true; bytes = a; world = record st.net { incoming = b } },
          with_net st (record st.net { incoming = b }),
        )
  unfolding receive
  receive-pipe p a b st h hc hl =
      ap (moved pipe scripted E st) (recv_binary-pipe p a b st.net h hc hl)

  fill_buffer-pipe :
      (p : IoPort) (size : ℕ) (a b : List ℕ) (st : State pipe scripted E)
      → st.net.incoming ≡ a ++ b
      → 0 < st.net.chunk
      → length a < 2 ^ 31
      → length a ≤ E.usable size
      → fill_buffer pipe scripted E p size (length a) st
        ≡ some (cleared_buffer size a, with_net st (record st.net { incoming = b }))
  unfolding fill_buffer
  fill_buffer-pipe p size a b st h hc hl room =
      let fits : leb (length a) (E.usable size) ≡ true = ground arith in
      let e = receive-pipe p a b st h hc hl in ground arith

  text_of_buffer :
      (size : ℕ) (a : List ℕ)
      → NoNul a
      → length a < size
      → buffer_text pipe scripted E (cleared_buffer size a) ≡ a
  unfolding cleared_buffer
  text_of_buffer size a text h =
      ap c_string (append-zeros a (size - length a) E.after (omega arith))
      ∙ c_string-NoNul a (replicate (size - length a - 1) 0 ++ E.after) text

  pub read_text-pipe :
      (p : IoPort) (size : ℕ) (a b : List ℕ) (st : State pipe scripted E)
      → st.net.incoming ≡ a ++ b
      → 0 < st.net.chunk
      → length a < 2 ^ 31
      → length a < size
      → size ≤ E.usable size
      → length a < E.usable (length a)
      → NoNul a
      → read_text pipe scripted E p size (length a) st
        ≡ some (a, with_net st (record st.net { incoming = b }))
  unfolding read_text copy_text
  read_text-pipe p size a b st h hc hl hs room own text =
      let e = fill_buffer-pipe p size a b st h hc hl (omega arith) in
      let t = text_of_buffer size a text hs in
      let fits : ltb (length a) (E.usable (length a)) ≡ true = ground arith in ground arith

  pub store_frame-pipe :
      (p : IoPort) (size : ℕ) (cid a b : List ℕ) (st : State pipe scripted E)
      → st.net.incoming ≡ a ++ b
      → 0 < st.net.chunk
      → length a < 2 ^ 31
      → length a ≤ E.usable size
      → E.can_create (frame_path pipe scripted E cid) ≡ true
      → store_frame pipe scripted E p size cid (some (length a)) st
        ≡ some (
          tt,
          record (with_net st (record st.net { incoming = b })) {
            files = st.files ++ (frame_path pipe scripted E cid, a) ∷ [];
          },
        )
  unfolding store_frame cleared_buffer write_file
  store_frame-pipe p size cid a b st h hc hl room can =
      let e = fill_buffer-pipe p size a b st h hc hl room in
      let t = take-append_self a (replicate (size - length a) 0) in ground arith

  pub transmit-pipe :
      (p : IoPort) (bs : List ℕ) (st : State pipe scripted E)
      → 0 < st.net.chunk
      → 0 < length bs
      → transmit pipe scripted E p bs st
        ≡ some (tt, with_net st (record st.net { outgoing = st.net.outgoing ++ bs }))
  unfolding transmit
  transmit-pipe p bs st hc hb =
      let e = send_binary-pipe sys_async_bufsize p bs st.net (omega arith) hc hb in ground arith
