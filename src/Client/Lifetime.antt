-- ===== src/Client/Lifetime.antt =====
-- How long the context of Client/client.cpp lives.
use logger_verifier.Base.Decimal.{ℤ, pos}
use logger_verifier.Client.{
  freed, live, not_created, ended, in_loop, ClientSystem, Setup, test_init_client, init_client,
  term_client, port_socket, client_await, Step, command, hang_up, main_transfer, Reach, start,
  later,
}
use logger_verifier.Database.Mysql.{Mysql}
use logger_verifier.Server.Service.{select_result}
use logger_verifier.Server.State.{Environment}
use logger_verifier.Wire.Network.{Network, timed_out}
use logger_verifier.Base.{ℕ, ◌≡◌, refl, ◌≢◌, ◌⊎◌, inr, none, some, arith}

module _ (N : Network) where
  -- The context is there for as long as the thread has not ended.
  abbrev pub IsHeld : ℕ → ClientSystem N → Type 0
  IsHeld socket sys =
      ((sys.context ≡ live socket) × ((sys.thread ≡ not_created) ⊎ (sys.thread ≡ in_loop socket)))
      ⊎ ((sys.context ≡ freed) × (sys.thread ≡ ended))

  -- When `initClient` returns, its result is not 0, which is what its callers test for, even where
  -- the server has refused the connection. In each case the context is there with the socket, and
  -- a thread, if there is one, serves that socket.
  pub init_client-IsHeld :
      (u : Setup) (sys sys' : ClientSystem N) (r : ℤ)
      → sys.thread ≡ not_created
      → init_client N u sys ≡ some (r, sys')
      → (r ≢ pos 0) × IsHeld u.socket sys' × (port_socket N sys' ≡ some u.socket)
  unfolding init_client test_init_client port_socket
  init_client-IsHeld u sys sys' r h e = ground arith

  term_client-frees :
      (sys sys' : ClientSystem N)
      → term_client N sys ≡ some sys'
      → (sys'.context ≡ freed) × (sys'.thread ≡ ended)
  unfolding term_client
  term_client-frees sys sys' e = ground arith

  term_client-live :
      (s : ℕ) (sys : ClientSystem N)
      → sys.context ≡ live s
      → term_client N sys ≡ some (record sys { context = freed; thread = ended })
  unfolding term_client
  term_client-live s sys e = ground arith

  held_port : (s : ℕ) (sys : ClientSystem N) → sys.context ≡ live s → port_socket N sys ≡ some s
  unfolding port_socket
  held_port s sys e = ground arith

  module _ (D : Mysql) (E : Environment) where
    Step-IsHeld :
        (socket : ℕ) {sys sys' : ClientSystem N}
        → Step N D E sys sys'
        → IsHeld socket sys
        → IsHeld socket sys'
    Step-IsHeld socket (command s buf w w' e f) h = h
    Step-IsHeld socket {sys} {sys'} (hang_up s w e f g) h =
        inr (term_client-frees (record sys { net = w }) sys' g)
    Step-IsHeld socket (main_transfer s w' e) h = h

    Reach-IsHeld :
        (socket : ℕ) {first sys : ClientSystem N}
        → IsHeld socket first
        → Reach N D E first sys
        → IsHeld socket sys
    Reach-IsHeld socket h start = h
    Reach-IsHeld socket h (later r st) = Step-IsHeld socket st (Reach-IsHeld socket h r)

    client_await-timed_out :
        (s : ℕ) (w w' : N.World)
        → N.select_read s 10 w ≡ (timed_out, w')
        → client_await N D E s w ≡ (none, w')
    unfolding client_await select_result
    client_await-timed_out s w w' e = ground arith

    -- As long as the thread of a client that was set up runs, the port of the main program is its
    -- socket. When the server is silent for the ten seconds that `select` waits, the next step can
    -- be that the thread frees the context and ends: the pointer that the main program passes to
    -- `send_binary` and `recv_binary` leads to freed memory then.
    pub silence_frees_port :
        (socket : ℕ) (first sys : ClientSystem N) (w : N.World)
        → IsHeld socket first
        → Reach N D E first sys
        → sys.thread ≡ in_loop socket
        → N.select_read socket 10 sys.net ≡ (timed_out, w)
        → (port_socket N sys ≡ some socket)
          × (sys' : ClientSystem N) × Step N D E sys sys'
          × (sys'.context ≡ freed)
          × (sys'.thread ≡ ended)
    silence_frees_port socket first sys w h r running silent =
        let held = Reach-IsHeld socket h r in
        let context : sys.context ≡ live socket = ground arith in
        (
          held_port socket sys context,
          record sys { context = freed; thread = ended; net = w },
          hang_up socket w running (client_await-timed_out socket sys.net w silent)
              (term_client-live socket (record sys { net = w }) context),
          refl,
          refl,
        )
