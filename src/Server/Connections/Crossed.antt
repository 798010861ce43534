-- ===== src/Server/Connections/Crossed.antt =====
-- Where the answers of Server/server.cpp go once two clients are connected, on a network of many
-- sockets.
use logger_verifier.Database.Mysql.{Mysql}
use logger_verifier.Server.Connections.{
  System, port_type_tcp, Reach, later, round, listen_turn, begin_thread,
}
use logger_verifier.Server.Connections.Safety.{two_clients-Reach}
use logger_verifier.Server.Dispatch.{cmd_parser, run_command, find_command, reply_of}
use logger_verifier.Server.Handlers.{hi_i_am}
use logger_verifier.Server.Service.{
  service_round, select_result, recv_header, recv_count, recv_bytes, serve_header,
}
use logger_verifier.Server.State.{
  Environment, State, make_res_packet, send_res_packet, transmit, moved,
}
use logger_verifier.Wire.Network.{Network, ready, received, sent}
use logger_verifier.Wire.Packet.{header_bytes, make_packet, read_header, logger, nice_2_meet_u}
use logger_verifier.Wire.Transfer.{IoPort, send_binary, send_once}
use logger_verifier.Base.{
  ℕ, ◌≡◌, refl, true, some, List, [], ◌∷◌, ◌++◌, arith, ◌==◌, if◌then◌else◌, length, take, drop,
}

-- What waits on each socket, and what was sent to which, in its order.
pub record Switchboard : Type 0 where
  pub waiting : ℕ → List ℕ
  pub log : List (ℕ × List ℕ)

-- Every socket is ready. A call of `send` takes all its bytes, one of `recv` takes what was asked
-- for from the front of its own socket.
abbrev pub switchboard : Network
switchboard = record {
  World = Switchboard;
  select_read = λ s t w. (ready, w);
  select_write = λ s t w. (ready, w);
  recv = λ s n w. (
    received (take n (w.waiting s)),
    record w { waiting = λ k. if k == s then drop n (w.waiting k) else w.waiting k },
  );
  send = λ s bs w. (sent (length bs), record w { log = w.log ++ (s, bs) ∷ [] });
}

-- The header of `HI_I_AM` from the device `dev`, and that of its answer.
abbrev pub greeting_of : ℕ → List ℕ
greeting_of dev = dev ∷ 18 ∷ 9 ∷ 0 ∷ 0 ∷ 0 ∷ 0 ∷ 0 ∷ []

module _ (D : Mysql) (E : Environment) where
  greeting_round :
      (a b : ℕ) (rest : List ℕ) (st : State switchboard D E)
      → E.cmd_hdr_size ≡ 8
      → st.net.waiting a ≡ greeting_of logger ++ rest
      → (st' : State switchboard D E) × (service_round switchboard D E a
            (record { port_type = port_type_tcp; s = b; timeout = 30 })
            st
          ≡ some (true, st'))
        × (st'.net.waiting a ≡ rest)
        × (st'.net.log
            ≡ st.net.log ++ (b, header_bytes (make_packet logger nice_2_meet_u 0 0)) ∷ [])
  unfolding service_round select_result recv_header recv_count recv_bytes serve_header cmd_parser
      run_command read_header find_command reply_of hi_i_am make_res_packet send_res_packet transmit
      moved header_bytes make_packet send_binary send_once
  greeting_round a b rest st size arrived = rw (size, arrived) (_, refl, ground arith, refl)

  -- Two clients connect, on the sockets `a` and `b`, and the first's thread begins before the
  -- second is accepted. When the greeting of a logger then arrives on `a`, a state can be reached
  -- in which the server has read it from `a`, and has sent its answer, the header of
  -- `NICE_2_MEET_U`, on `b`,
  -- and nothing else to anybody.
  pub greeting_crosses :
      (p : IoPort) (a b : ℕ) (rest : List ℕ) (st : State switchboard D E)
      → E.cmd_hdr_size ≡ 8
      → st.net.waiting a ≡ greeting_of logger ++ rest
      → (sys : System switchboard D E) × Reach switchboard D E p st sys
        × (sys.state.net.waiting a ≡ rest)
        × (sys.state.net.log
            ≡ st.net.log ++ (b, header_bytes (make_packet logger nice_2_meet_u 0 0)) ∷ [])
  unfolding listen_turn begin_thread
  greeting_crosses p a b rest st size arrived =
      let (st', ran, left, log) = greeting_round a b rest st size arrived in
      (
        _,
        later (two_clients-Reach switchboard D E p st a b) (round 0 a true st' refl ran),
        left,
        log,
      )
