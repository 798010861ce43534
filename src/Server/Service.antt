-- ===== src/Server/Service.antt =====
-- `ClientServiceThread` of Server/server.cpp: the loop that reads headers and runs commands.
use logger_verifier.Base.Run.{Run, pure, ◌>>=◌}
use logger_verifier.Database.Mysql.{Mysql}
use logger_verifier.Server.Dispatch.{cmd_parser}
use logger_verifier.Server.State.{Environment, State}
use logger_verifier.Wire.Network.{
  Network, Selected, select_failed, timed_out, ready, Received, recv_failed, received,
}
use logger_verifier.Wire.Packet.{read_header}
use logger_verifier.Wire.Transfer.{IoPort}
use logger_verifier.Base.{
  ℕ, zero, suc, ◌%◌, Bool, true, false, Option, none, some, List, [], ◌==◌, if◌then◌else◌, length,
}

-- The counts are kept in a `uint8_t`, where -1 is 255. Of a positive count of `select` on one
-- socket only 1 is possible.
unfoldable pub select_result : Selected → ℕ
select_result select_failed = 255
select_result timed_out = 0
select_result ready = 1

unfoldable pub recv_count : Received → ℕ
recv_count recv_failed = 255
recv_count (received bs) = length bs % 256

-- What `recv` left in the cleared `buf`.
unfoldable pub recv_bytes : Received → List ℕ
recv_bytes recv_failed = []
recv_bytes (received bs) = bs

module _ (N : Network) (D : Mysql) (E : Environment) where
  -- The inner loop with `retry_cnt` at `n`: the bytes of the first call whose count is not 0, or
  -- none where every call counted 0. `res <= 0` of an unsigned number is `res == 0`.
  unfoldable pub recv_header : ℕ → ℕ → N.World → Option (List ℕ) × N.World
  unfolding recv_count recv_bytes
  recv_header zero s w =
      let (r, w') = N.recv s E.cmd_hdr_size w in
      if recv_count r == 0 then (none, w') else (some (recv_bytes r), w')
  recv_header (suc n) s w =
      let (r, w') = N.recv s E.cmd_hdr_size w in
      let again = recv_header n s w' in
      if recv_count r == 0 then again else (some (recv_bytes r), w')

  -- A command, if a header was read. `true`: the thread goes on. `send_retry_cnt` goes from 5 to 4
  -- and back to 5, so both results of `cmd_parser` do.
  unfoldable pub serve_header : IoPort → Option (List ℕ) → Run (State N D E) Bool
  unfolding cmd_parser read_header
  serve_header p none = pure false
  serve_header p (some buf) = do _ ← cmd_parser N D E p (read_header buf); pure true

  -- One round of the thread's loop: it reads the socket `s` that it copied when it began, and gives
  -- `cmd_parser` the port `p` as that is now. The test for -1 never holds, as `select_result` is
  -- not negative.
  unfoldable pub service_round : ℕ → IoPort → Run (State N D E) Bool
  unfolding select_result recv_header serve_header
  service_round s p st =
      let (r, w) = N.select_read s 10 st.net in
      let (got, w') = recv_header 5 s w in
      if select_result r == 0
      then some (false, record st { net = w })
      else serve_header p got (record st { net = w' })

  -- The thread for `fuel` rounds, while nothing else writes the port: `false` where it has closed
  -- its socket. It sets the port's timeout first, and no round changes that.
  unfoldable pub client_service_thread : ℕ → IoPort → Run (State N D E) Bool
  client_service_thread zero p = pure true
  client_service_thread (suc fuel) p = do
    on ← service_round p.s (record p { timeout = 30 })
    elim on [ true ↦ client_service_thread fuel p | false ↦ pure false ]
