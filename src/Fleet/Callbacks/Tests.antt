-- ===== src/Fleet/Callbacks/Tests.antt =====
-- The callbacks of one robot on concrete answers.
use open_rmf_adapters_quiksy.Base.{ℕ, ◌+◌, none, some, ◌≡◌, refl, str_eq}
use open_rmf_adapters_quiksy.Base.Int.{pos}
use open_rmf_adapters_quiksy.Base.Exec.{ok, err, client_error, auth_error}
use open_rmf_adapters_quiksy.Python.{Value, finite, null, str, object, field, end, find, getattr}
use open_rmf_adapters_quiksy.Python.Sample.{sample_runtime}
use open_rmf_adapters_quiksy.Fleet.Robot.{new_robot}
use open_rmf_adapters_quiksy.Fleet.Callbacks.{
  Destination, extract_destination, speed_limit, is_positive, CommandPorts, CommandScene, navigate,
}
use open_rmf_adapters_quiksy.Fleet.Callbacks.Laws.{
  destination_object, Navigated, extract_destination-destination_object, navigate-Answered,
}

-- A server that takes navigations and refuses everything else; stops end without a token.
abbrev sample_commands : CommandPorts ℕ
sample_commands = record {
  post_navigate = λ robot id d dock limit n. (ok null, n + 1);
  post_stop = λ robot id n. (err auth_error, n);
  post_perform_action = λ robot id category description n. (err (client_error 400 none), n + 1);
}

abbrev command_scene : CommandScene ℕ ℕ
command_scene = record { handle = new_robot "r1"; world = 0 }

abbrev goal : Destination
goal = record {
  x = finite (pos 1) 0;
  y = finite (pos 3) 1;
  yaw = finite (pos 0) 0;
  map_name = "L1";
}

abbrev execution : Value
execution = object (field "identifier" (str "activity-1") end)

extract_destination-destination_object_example :
    extract_destination sample_runtime (destination_object goal) ≡ ok (some goal)
unfolding str_eq
extract_destination-destination_object_example =
    extract_destination-destination_object sample_runtime goal refl

no_speed_limit : speed_limit sample_runtime (destination_object goal) ≡ ok none
unfolding speed_limit is_positive getattr find str_eq
no_speed_limit = refl

navigate-Answered_example :
    Navigated sample_runtime sample_commands
      (destination_object goal)
      execution
      "e1"
      command_scene
      (extract_destination sample_runtime (destination_object goal))
      (speed_limit sample_runtime (destination_object goal))
      (navigate sample_runtime sample_commands
        (destination_object goal)
        execution
        "e1"
        command_scene)
navigate-Answered_example =
    navigate-Answered sample_runtime sample_commands (destination_object goal) execution "e1"
      command_scene
