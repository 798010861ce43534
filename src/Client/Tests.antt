-- ===== src/Client/Tests.antt =====
-- The client's connection at concrete inputs.
use logger_verifier.Base.Decimal.{pos, negsuc}
use logger_verifier.Client.{
  freed, ended, null, live, not_created, in_loop, ClientSystem, Setup, test_init_client,
  init_client, port_socket, Step, start,
}
use logger_verifier.Client.Lifetime.{IsHeld, init_client-IsHeld, silence_frees_port}
use logger_verifier.Database.Scripted.{scripted}
use logger_verifier.Server.Sample.{environment}
use logger_verifier.Wire.Network.{Network, timed_out, recv_failed, send_failed}
use logger_verifier.Base.{◌≡◌, refl, ◌≢◌, inl, inr, true, false, some}

-- A server that says nothing.
abbrev silent : Network
silent = record {
  World = Unit {0};
  select_read = λ s t w. (timed_out, w);
  select_write = λ s t w. (timed_out, w);
  recv = λ s n w. (recv_failed, w);
  send = λ s bs w. (send_failed, w);
}

abbrev before_setup : ClientSystem silent
before_setup = record { context = null; thread = not_created; net = tt }

-- The server refuses the connection.
abbrev refused : Setup
refused = record { memory = true; socket = 3; connected = false; thread_created = true }

abbrev refused_system : ClientSystem silent
refused_system = record { context = live 3; thread = not_created; net = tt }

refused_setup : init_client silent refused before_setup ≡ some (negsuc 0, refused_system)
unfolding init_client test_init_client
refused_setup = refl

failed_connect :
    (negsuc 0 ≢ pos 0)
    × IsHeld silent 3 refused_system
    × (port_socket silent refused_system ≡ some 3)
failed_connect =
    init_client-IsHeld silent refused before_setup refused_system (negsuc 0) refl refused_setup

abbrev connected : ClientSystem silent
connected = record { context = live 3; thread = in_loop 3; net = tt }

silence_frees_port_example :
    (port_socket silent connected ≡ some 3)
    × (sys' : ClientSystem silent) × Step silent scripted environment connected sys'
    × (sys'.context ≡ freed)
    × (sys'.thread ≡ ended)
silence_frees_port_example =
    silence_frees_port silent scripted environment 3 connected connected tt (inl (refl, inr refl))
      start refl refl
