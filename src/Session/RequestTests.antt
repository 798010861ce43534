-- ===== src/Session/RequestTests.antt =====
-- The server's answers to a key and to a request for a share.
use logger_verifier.Base.Decimal.{pos, decimal}
use logger_verifier.Database.Queries.{lid_exists, last_cell}
use logger_verifier.Database.Scripted.{scripted}
use logger_verifier.Database.Sessions.{script}
use logger_verifier.Server.Dispatch.{cmd_parser}
use logger_verifier.Server.State.{State}
use logger_verifier.Server.Sample.{environment}
use logger_verifier.Session.RecheckTests.{state, port}
use logger_verifier.Session.Registration.{key_header, registered_state, key_registered}
use logger_verifier.Session.ShareAnswer.{share_header, shared_state, share_answered}
use logger_verifier.Wire.Packet.{header_bytes, read_header}
use logger_verifier.Wire.Pipe.{pipe}
use logger_verifier.Base.{ℕ, ◌≡◌, refl, Option, some, List, [], ◌∷◌, arith, codes}

abbrev one_cell : List ℕ → List (List (Option (List ℕ)))
one_cell text = (some text ∷ []) ∷ []

abbrev asking : State pipe scripted environment
asking = record (state (codes "PEM")) {
  db = script (one_cell (codes "0") ∷ [] ∷ [] ∷ one_cell (codes "L-07") ∷ []) [];
}

key_registered_example :
    cmd_parser pipe scripted environment port
      (read_header (header_bytes (key_header (codes "PEM"))))
      asking
    ≡ some (pos 0, registered_state environment (pos 0) (codes "PEM") (codes "L-07") [] asking)
unfolding lid_exists last_cell
key_registered_example =
    key_registered environment port (pos 0) (codes "PEM") (codes "L-07") [] asking
      (ground arith, (ground arith, (ground arith, tt))) (ground arith) (ground arith) refl refl
      (ground arith) refl refl

abbrev wanting : State pipe scripted environment
wanting = record (state (codes "3")) { db = script (one_cell (codes "s1") ∷ [] ∷ []) [] }

share_answered_example :
    cmd_parser pipe scripted environment port (read_header (header_bytes share_header)) wanting
    ≡ some (pos 0, shared_state environment 3 (codes "s1") [] wanting)
unfolding last_cell decimal
share_answered_example =
    share_answered environment port 3 (codes "s1") [] wanting (omega arith) (omega arith)
      (omega arith) refl refl (ground arith) refl
