-- ===== src/Server/Listener/Tests.antt =====
-- Listening sockets at concrete answers.
use lswasm.Base.{◌≡◌, refl, true, false, some, [], ◌∷◌}
use lswasm.Base.{if◌then◌else◌}
use lswasm.Base.{codes}
use lswasm.CommandLine.{pos, negsuc}
use lswasm.Server.Listener.{
  opens, closes, unlinks, OsAnswers, new_listener, start_tcp, start_uds, destroy_listener, to_port,
  start_uds_with,
}
use lswasm.Server.Listener.Closing.{closings, closings-new_listener}

-- The address is in use.
abbrev in_use : OsAnswers
in_use = record {
  socket = some 4;
  option_set = true;
  directories = true;
  bound = false;
  mode_changed = true;
  listening = true;
}

closings-new_listener_example :
    (closings 4
        (destroy_listener (start_tcp (new_listener (codes "/s") 438) (pos 80) in_use).1).calls
      ≡ (if (start_tcp (new_listener (codes "/s") 438) (pos 80) in_use).0 then 1 else 2))
    × (closings 4 (destroy_listener (start_uds (new_listener (codes "/s") 438) in_use).1).calls
        ≡ (if (start_uds (new_listener (codes "/s") 438) in_use).0 then 1 else 2))
closings-new_listener_example = closings-new_listener (pos 80) in_use (codes "/s") 438 4 refl

-- The socket is closed by the start that fails and by the destructor.
closed_twice :
    (destroy_listener (start_uds (new_listener (codes "/s") 438) in_use).1).calls
    ≡ unlinks (codes "/s") ∷ closes 4 ∷ closes 4 ∷ unlinks (codes "/s") ∷ opens 4 ∷ []
unfolding destroy_listener start_uds start_uds_with new_listener
closed_twice = refl

-- A port that is too large wraps.
wrapped_port : (to_port (pos 70000) ≡ 4464) × (to_port (negsuc 0) ≡ 65535)
unfolding to_port
wrapped_port = (refl, refl)
