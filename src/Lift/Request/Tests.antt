-- ===== src/Lift/Request/Tests.antt =====
-- The translation of lift requests on concrete messages.
use open_rmf_adapters_quiksy.Base.{none, str_eq, ◌≡◌, refl}
use open_rmf_adapters_quiksy.Base.Exec.{ok}
use open_rmf_adapters_quiksy.Python.Sample.{sample_runtime}
use open_rmf_adapters_quiksy.Lift.Request.{
  agv_mode, open_door, TranslatedLiftRequest, translate_request,
}
use open_rmf_adapters_quiksy.Lift.Request.RoundTrip.{
  message_of, IsNamed, translate_request-message_of,
}

abbrev to_level_two : TranslatedLiftRequest
to_level_two = record {
  lift_name = "lobby";
  session_id = "fleet_a";
  destination_floor = "L2";
  request_type = agv_mode;
  door_state = open_door;
  execution_id = "e1";
}

to_level_two-IsNamed : IsNamed to_level_two
unfolding str_eq
to_level_two-IsNamed = record { lift = refl; session = refl; floor = refl }

translate_request-message_of_example :
    translate_request sample_runtime (message_of to_level_two) none "e1" ≡ ok to_level_two
translate_request-message_of_example =
    translate_request-message_of sample_runtime to_level_two none "e1" to_level_two-IsNamed
