-- ===== src/Door/Handle/Tests.antt =====
-- One door handle on concrete messages.
use open_rmf_adapters_quiksy.Base.{ℕ, ◌+◌, none, ◌≡◌, refl, str_eq}
use open_rmf_adapters_quiksy.Base.Int.{pos}
use open_rmf_adapters_quiksy.Base.Exec.{ok}
use open_rmf_adapters_quiksy.Python.{Value, null, int, str, dict, field, end, item, find}
use open_rmf_adapters_quiksy.Python.Runtime.{to_int}
use open_rmf_adapters_quiksy.Python.Sample.{sample_runtime}
use open_rmf_adapters_quiksy.Client.TimeConv.{millis_to_time_parts}
use open_rmf_adapters_quiksy.Door.Handle.{
  door_open, TranslatedDoorRequest, DoorPorts, DoorScene, translate_door_state,
}
use open_rmf_adapters_quiksy.Door.Handle.RoundTrip.{IsNamedDoor}

abbrev sample_door_ports : DoorPorts (ℕ × ℕ)
sample_door_ports = record {
  post_door_request = λ p s. (ok null, (s.0 + 1, s.1));
  publish_state_fields = λ f s. (ok tt, (s.0, s.1 + 1));
}

abbrev door_scene : DoorScene (ℕ × ℕ)
door_scene = record {
  handle = record {
    door_name = "front";
    namespace = none;
    state_dispatched = 0;
    requests_dispatched = 0;
    requests_rejected = 0;
  };
  ports = (0, 0);
}

abbrev open_front : TranslatedDoorRequest
open_front = record {
  door_name = "front";
  requester_id = "fleet_a";
  requested_mode = door_open;
  execution_id = "e1";
}

open_front-IsNamedDoor : IsNamedDoor open_front
unfolding str_eq
open_front-IsNamedDoor = record { door = refl; requester = refl }

abbrev door_frame : Value
door_frame = dict (
    field "door_name" (str "front") (
      field "door_time" (int (pos 1_500))
        (field "current_mode" (dict (field "value" (int (pos 2)) end)) end)))

door_frame_translates :
    translate_door_state sample_runtime door_frame
    ≡ ok (record {
      door_name = str "front";
      door_time = record { sec = pos 1; nanosec = 500_000_000 };
      current_mode = pos 2;
    })
unfolding translate_door_state item find str_eq to_int millis_to_time_parts
door_frame_translates = refl
