-- ===== src/Server/Connections.antt =====
-- `listenThd` of Server/server.cpp and the threads that it creates: how one port is shared by every
-- connection.
pub mod Crossed
pub mod Safety
use logger_verifier.Database.Mysql.{Mysql}
use logger_verifier.Server.Service.{service_round}
use logger_verifier.Server.State.{Environment, State}
use logger_verifier.Wire.Network.{Network}
use logger_verifier.Wire.Transfer.{IoPort}
use logger_verifier.Base.{
  ℕ, ◌+◌, ◌≡◌, Bool, some, List, [], ◌∷◌, ◌++◌, if◌then◌else◌, get_elem?, set,
}

-- One turn of the listening loop: what `select`, `FD_ISSET`, `accept` and `pthread_create` answer.
pub data Turn : Type 0 where
  listen_select_failed nothing_waits not_set accept_failed : Turn
  accepted_socket : (news : ℕ) (thread_created : Bool) → Turn

-- `ClientServiceThread`: created and not yet run, in its loop with its `fd_socket`, or ended.
pub data Thread : Type 0 where
  created : Thread
  serving : ℕ → Thread
  ended : Thread

-- `PORT_TYPE_TCP`
abbrev pub port_type_tcp : ℕ
port_type_tcp = 0

module _ (N : Network) (D : Mysql) (E : Environment) where
  -- `port` is `g_pNetwork->port`, whose address every thread is given; `accepted` lists the sockets
  -- that `accept` has returned.
  pub record System : Type 0 where
    pub port : IoPort
    pub threads : List Thread
    pub state : State N D E
    pub accepted : List ℕ

  -- The port is written before the thread is created, and stays so if that fails.
  unfoldable pub listen_turn : Turn → System → System
  listen_turn listen_select_failed sys = sys
  listen_turn nothing_waits sys = sys
  listen_turn not_set sys = sys
  listen_turn accept_failed sys = sys
  listen_turn (accepted_socket news ok) sys = record sys {
    port = record { port_type = port_type_tcp; s = news; timeout = 30 };
    threads = if ok then sys.threads ++ created ∷ [] else sys.threads;
    accepted = news ∷ sys.accepted;
  }

  -- The head of `ClientServiceThread`, in thread `i`: the socket is copied from the port.
  unfoldable pub begin_thread : ℕ → System → System
  begin_thread i sys = record sys {
    port = record (sys.port) { timeout = 30 };
    threads = set sys.threads i (serving sys.port.s);
  }

  -- What is left of a thread on `s` after a round: in its loop, or ended with its socket closed.
  unfoldable pub after_round : Bool → ℕ → Thread
  after_round on s = if on then serving s else ended

  -- The interleavings of the listening thread with the rounds of the others.
  pub data Step (sys : System) : System → Type 0 where
    listen : (t : Turn) → Step sys (listen_turn t sys)
    begin : (i : ℕ) → get_elem? sys.threads i ≡ some created → Step sys (begin_thread i sys)
    round :
        (i s : ℕ) (on : Bool) (st : State N D E)
        → get_elem? sys.threads i ≡ some (serving s)
        → service_round N D E s sys.port sys.state ≡ some (on, st)
        → Step sys (record sys { threads = set sys.threads i (after_round on s); state = st })

  -- The server before its first connection.
  abbrev pub idle : IoPort → State N D E → System
  idle p st = record { port = p; threads = []; state = st; accepted = [] }

  pub data Reach (p : IoPort) (st : State N D E) : System → Type 0 where
    start : Reach p st (idle p st)
    later : {sys sys' : System} → Reach p st sys → Step sys sys' → Reach p st sys'
