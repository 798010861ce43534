-- ===== src/Server/Connections/Safety.antt =====
-- Which socket an answer of Server/server.cpp goes to.
use logger_verifier.Database.Mysql.{Mysql}
use logger_verifier.Server.Connections.{
  accepted_socket, serving, System, listen_turn, begin_thread, listen, begin, idle, Reach, start,
  later,
}
use logger_verifier.Server.State.{Environment, State}
use logger_verifier.Wire.Network.{Network}
use logger_verifier.Wire.Transfer.{IoPort}
use logger_verifier.Base.{ℕ, ◌≤◌, ◌≡◌, refl, true, some, [], ◌∷◌, length, get_elem?}

module _ (N : Network) (D : Mysql) (E : Environment) where
  -- With at most one socket accepted, every thread serves the socket of the port.
  record IsAlone (sys : System N D E) : Type 0 where
    few : length sys.threads ≤ length sys.accepted
    shared :
        (i s : ℕ)
        → length sys.accepted ≤ 1
        → get_elem? sys.threads i ≡ some (serving s)
        → s ≡ sys.port.s

  -- Two clients `a` and `b`, and the first's thread has begun before the second is accepted.
  abbrev pub two_clients : IoPort → State N D E → ℕ → ℕ → System N D E
  two_clients p st a b =
      listen_turn N D E (accepted_socket b true)
        (begin_thread N D E 0 (listen_turn N D E (accepted_socket a true) (idle N D E p st)))

  pub two_clients-Reach :
      (p : IoPort) (st : State N D E) (a b : ℕ) → Reach N D E p st (two_clients p st a b)
  unfolding listen_turn begin_thread
  two_clients-Reach p st a b =
      later (later (later start (listen (accepted_socket a true))) (begin 0 refl))
        (listen (accepted_socket b true))

  -- Two clients may be accepted before the first's thread begins: then both threads copy the
  -- socket of the second, and no thread of such a state serves the first.
  pub two_threads_one_socket :
      (p : IoPort) (st : State N D E) (a b : ℕ)
      → (sys : System N D E) × Reach N D E p st sys
        × (sys.accepted ≡ b ∷ a ∷ [])
        × (sys.threads ≡ serving b ∷ serving b ∷ [])
  unfolding listen_turn begin_thread
  two_threads_one_socket p st a b = (
    _,
    later
        (later
          (later (later start (listen (accepted_socket a true))) (listen (accepted_socket b true)))
          (begin 0 refl))
        (begin 1 refl),
    refl,
    refl,
  )
