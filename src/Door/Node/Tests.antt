-- ===== src/Door/Node/Tests.antt =====
-- A node with two doors on concrete messages.
use open_rmf_adapters_quiksy.Base.{
  arith, String, List, ℕ, ◌+◌, false, none, some, [], ◌∷◌, ◌≡◌, refl, str_eq,
}
use open_rmf_adapters_quiksy.Base.Dict.{get, put}
use open_rmf_adapters_quiksy.Base.Exec.{ok}
use open_rmf_adapters_quiksy.Python.{null}
use open_rmf_adapters_quiksy.Python.Sample.{sample_runtime}
use open_rmf_adapters_quiksy.Door.Handle.{door_closed, TranslatedDoorRequest, DoorPorts}
use open_rmf_adapters_quiksy.Door.Handle.RoundTrip.{door_message_of, IsNamedDoor}
use open_rmf_adapters_quiksy.Door.Node.{DoorNode, new_node, route_request}
use open_rmf_adapters_quiksy.Pump.{
  Callback, new_pump, pump_step, start, stop, run_frame, dispatch_frame,
}
use open_rmf_adapters_quiksy.Door.Node.Lifecycle.{
  NodeRun, NodeEvent, node_start, node_stop, frame_for, node_run, node_step, start_node, stop_node,
  start_all_pumps, stop_all_pumps, IsLive, node_run-IsLive,
}
use open_rmf_adapters_quiksy.Door.Node.Routing.{
  IsKeyed, new_node-IsKeyed, IsRouted, route_request-IsRouted, posted_by,
  route_request-door_message_of,
}

abbrev counting_ports : DoorPorts ℕ
counting_ports = record {
  post_door_request = λ p n. (ok null, n + 1);
  publish_state_fields = λ f n. (ok tt, n);
}

abbrev two_doors : DoorNode ℕ
two_doors = new_node ("front" ∷ "back" ∷ []) none 0

two_doors-IsKeyed : IsKeyed two_doors.handles
two_doors-IsKeyed = new_node-IsKeyed ("front" ∷ "back" ∷ []) none 0

abbrev close_back : TranslatedDoorRequest
close_back = record {
  door_name = "back";
  requester_id = "fleet_a";
  requested_mode = door_closed;
  execution_id = "e1";
}

close_back-IsNamedDoor : IsNamedDoor close_back
unfolding str_eq
close_back-IsNamedDoor = record { door = refl; requester = refl }

route_request-IsRouted_example :
    IsRouted two_doors
      (route_request sample_runtime counting_ports (door_message_of close_back) "e1" two_doors).0
      (route_request sample_runtime counting_ports (door_message_of close_back) "e1" two_doors).1
route_request-IsRouted_example =
    route_request-IsRouted sample_runtime counting_ports (door_message_of close_back) "e1" two_doors
      two_doors-IsKeyed

route_request-door_message_of_example :
    route_request sample_runtime counting_ports (door_message_of close_back) "e1" two_doors
    ≡ (elim (get two_doors.handles "back") [
      | none ↦ (ok false, two_doors)
      | some h ↦ posted_by sample_runtime counting_ports close_back "e1" h two_doors
    ])
unfolding new_node
route_request-door_message_of_example =
    route_request-door_message_of sample_runtime counting_ports close_back "e1" two_doors
      two_doors-IsKeyed close_back-IsNamedDoor

abbrev idle_run : NodeRun ℕ
idle_run = record {
  started = false;
  has_loop = false;
  pumps = ("front", new_pump) ∷ ("back", new_pump) ∷ [];
  ws = record { closed = false; failure_times = [] };
  world = 0;
}

abbrev count_frames : String → Callback ℕ
count_frames name frame n = (ok tt, n + 1)

abbrev one_shift : List NodeEvent
one_shift = node_start ∷ frame_for "back" null ∷ node_stop ∷ frame_for "back" null ∷ []

one_shift_counts_once : (node_run count_frames one_shift idle_run).world ≡ 1
unfolding node_run node_step start_node stop_node start_all_pumps stop_all_pumps get put str_eq
    pump_step start stop run_frame dispatch_frame
one_shift_counts_once = refl

idle_run-IsLive : IsLive idle_run
idle_run-IsLive = record {
  loop = λ up. absurd (ground (arith, up));
  idle = λ down. (refl, (refl, tt));
}

node_run-IsLive_example : IsLive (node_run count_frames one_shift idle_run)
node_run-IsLive_example = node_run-IsLive count_frames one_shift idle_run idle_run-IsLive
