-- ===== src/Server/Broken.antt =====
-- `ClientServiceThread` on a connection that is broken.
use logger_verifier.Database.Mysql.{Mysql}
use logger_verifier.Server.Dispatch.{find_command, cmd_parser, run_command, reply_of}
use logger_verifier.Server.Service.{
  select_result, recv_count, recv_bytes, recv_header, serve_header, service_round,
  client_service_thread,
}
use logger_verifier.Server.State.{Environment, State}
use logger_verifier.Wire.Network.{Network, select_failed, recv_failed}
use logger_verifier.Wire.Packet.{read_header}
use logger_verifier.Wire.Transfer.{IoPort}
use logger_verifier.Base.{ℕ, zero, suc, ◌≡◌, refl, true, some, [], arith}

module _ (N : Network) (D : Mysql) (E : Environment) where
  -- A header of zeros holds no command.
  serve_header-zeros :
      (p : IoPort) (st : State N D E) → serve_header N D E p (some []) st ≡ some (true, st)
  unfolding serve_header cmd_parser run_command read_header find_command reply_of
  serve_header-zeros p st = refl

  recv_header-failed :
      (s : ℕ) (w : N.World)
      → N.recv s E.cmd_hdr_size w ≡ (recv_failed, w)
      → recv_header N D E 5 s w ≡ (some [], w)
  unfolding recv_header recv_count recv_bytes
  recv_header-failed s w e = ground arith

  service_round-failed :
      (p : IoPort) (st : State N D E)
      → N.select_read p.s 10 st.net ≡ (select_failed, st.net)
      → N.recv p.s E.cmd_hdr_size st.net ≡ (recv_failed, st.net)
      → service_round N D E p.s p st ≡ some (true, st)
  unfolding service_round select_result
  service_round-failed p st es er =
      let h = recv_header-failed p.s st.net er in let z = serve_header-zeros p st in ground arith

  -- When every `select` and every `recv` on the socket fails and changes nothing, as on a socket
  -- that is broken, the thread never ends: after any number of rounds it goes on, with the server's
  -- state as it was. The -1 of the two calls is 255 in the `uint8_t`, and counts as bytes received.
  pub client_service_thread_never_ends :
      (p : IoPort) (st : State N D E)
      → N.select_read p.s 10 st.net ≡ (select_failed, st.net)
      → N.recv p.s E.cmd_hdr_size st.net ≡ (recv_failed, st.net)
      → (rounds : ℕ) → client_service_thread N D E rounds p st ≡ some (true, st)
  unfolding client_service_thread
  client_service_thread_never_ends p st es er zero = refl
  client_service_thread_never_ends p st es er (suc n) =
      let round = service_round-failed (record p { timeout = 30 }) st es er in
      let rest = client_service_thread_never_ends p st es er n in ground arith
