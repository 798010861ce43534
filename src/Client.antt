-- ===== src/Client.antt =====
-- The connection of Client/client.cpp: `initClient`, `ClientServiceThread`, `termClient`, and the
-- context that the thread and the main program share through `g_pNetwork`.
pub mod Lifetime
mod Tests
use logger_verifier.Base.Decimal.{ℤ, pos, negsuc}
use logger_verifier.Database.Mysql.{Mysql}
use logger_verifier.Server.Service.{select_result, recv_header}
use logger_verifier.Server.State.{Environment}
use logger_verifier.Wire.Network.{Network}
use logger_verifier.Base.{ℕ, ◌≡◌, Bool, ◌&&◌, Option, none, some, List, ◌==◌, if◌then◌else◌}

-- What `g_pNetwork` points to: nothing, a context with its `m_socket`, or memory that was freed.
pub data Context : Type 0 where
  null freed : Context
  live : ℕ → Context

-- The client's service thread with its `fd_socket`.
pub data Phase : Type 0 where
  not_created ended : Phase
  in_loop : ℕ → Phase

-- What the calls of `initClient` answer: the memory, the socket, `connect` and `pthread_create`.
pub record Setup : Type 0 where
  pub memory : Bool
  pub socket : ℕ
  pub connected : Bool
  pub thread_created : Bool

module _ (N : Network) where
  pub record ClientSystem : Type 0 where
    pub context : Context
    pub thread : Phase
    pub net : N.World

  -- `test_initClient`, which creates no thread. A context that cannot be allocated is written
  -- through NULL.
  unfoldable pub test_init_client : Setup → ClientSystem → Option (ℤ × ClientSystem)
  test_init_client u sys =
      if u.memory
      then (let sys' : ClientSystem = record sys { context = live u.socket } in
          some (if u.connected then pos 1 else negsuc 0, sys'))
      else none

  -- `initClient`. The thread copies the socket from the port of the context.
  unfoldable pub init_client : Setup → ClientSystem → Option (ℤ × ClientSystem)
  init_client u sys = elim (test_init_client u sys) [
    | none ↦ none
    | some (r, sys') ↦ some (
      r,
      if u.connected && u.thread_created then record sys' { thread = in_loop u.socket } else sys',
    )
  ]

  -- `termClient`: it reads `m_socket` through the pointer and frees the context; the pointer stays.
  unfoldable pub term_client : ClientSystem → Option ClientSystem
  term_client sys = elim sys.context [
    | live s ↦ some (record sys { context = freed; thread = ended })
    | null ↦ none
    | freed ↦ none
  ]

  -- `&g_pNetwork->port`, as the main program passes it to `send_binary` and `recv_binary`: its
  -- socket, or none where the pointer leads to no context.
  unfoldable pub port_socket : ClientSystem → Option ℕ
  port_socket sys = elim sys.context [ live s ↦ some s | null ↦ none | freed ↦ none ]

  module _ (D : Mysql) (E : Environment) where
    -- The head of a round of the thread: the header that it has read, or none where it ends.
    unfoldable pub client_await : ℕ → N.World → Option (List ℕ) × N.World
    client_await s w =
        let (r, w1) = N.select_read s 10 w in
        let (got, w2) = recv_header N D E 5 s w1 in
        if select_result r == 0 then (none, w1) else (got, w2)

    -- The thread's rounds, with `cmd_parser` free to use the network, and the main program's use of
    -- the port.
    pub data Step (sys : ClientSystem) : ClientSystem → Type 0 where
      command :
          (s : ℕ) (buf : List ℕ) (w w' : N.World)
          → sys.thread ≡ in_loop s
          → client_await s sys.net ≡ (some buf, w)
          → Step sys (record sys { net = w' })
      hang_up :
          (s : ℕ) (w : N.World) {sys' : ClientSystem}
          → sys.thread ≡ in_loop s
          → client_await s sys.net ≡ (none, w)
          → term_client (record sys { net = w }) ≡ some sys'
          → Step sys sys'
      main_transfer :
          (s : ℕ) (w' : N.World) → port_socket sys ≡ some s → Step sys (record sys { net = w' })

    pub data Reach (first : ClientSystem) : ClientSystem → Type 0 where
      start : Reach first first
      later : {sys sys' : ClientSystem} → Reach first sys → Step sys sys' → Reach first sys'
