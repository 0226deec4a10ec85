-- ===== src/Lift/Node/Tests.antt =====
-- A node with two lifts on a concrete message.
use open_rmf_adapters_quiksy.Base.{ℕ, ◌+◌, none, [], ◌∷◌}
use open_rmf_adapters_quiksy.Base.Int.{pos}
use open_rmf_adapters_quiksy.Base.Exec.{ok}
use open_rmf_adapters_quiksy.Python.{Value, null, getattr}
use open_rmf_adapters_quiksy.Python.Sample.{sample_runtime}
use open_rmf_adapters_quiksy.Lift.Session.{new}
use open_rmf_adapters_quiksy.Lift.Session.Valid.{new-IsValid}
use open_rmf_adapters_quiksy.Lift.Request.{agv_mode, open_door}
use open_rmf_adapters_quiksy.Lift.Request.RoundTrip.{message_of}
use open_rmf_adapters_quiksy.Lift.Handle.{LiftPorts, DispatchInputs}
use open_rmf_adapters_quiksy.Lift.Node.{LiftNode, new_lift_node, route_lift_request}
use open_rmf_adapters_quiksy.Lift.Node.Routing.{
  IsLiftNode, new_lift_node-IsLiftNode, IsRoutedLift, route_lift_request-IsRoutedLift,
}

abbrev counting_lifts : LiftPorts ℕ
counting_lifts = record {
  post_lift_request = λ p n. (ok null, n + 1);
  publish_state_fields = λ f n. (ok tt, n);
}

abbrev two_lifts : LiftNode ℕ
two_lifts = new_lift_node ("lobby" ∷ "annex" ∷ []) none (new (pos 100)) 0

two_lifts-IsLiftNode : IsLiftNode two_lifts
two_lifts-IsLiftNode =
    new_lift_node-IsLiftNode ("lobby" ∷ "annex" ∷ []) none (new (pos 100)) 0 (new-IsValid (pos 100))

abbrev to_annex : Value
to_annex = message_of (record {
  lift_name = "annex";
  session_id = "fleet_a";
  destination_floor = "L2";
  request_type = agv_mode;
  door_state = open_door;
  execution_id = "e1";
})

abbrev readings : DispatchInputs
readings = record { execution_id = none; fresh = "e1"; now = 20; later = 21 }

route_lift_request-IsRoutedLift_example :
    IsRoutedLift
      (getattr to_annex "lift_name" null)
      two_lifts
      (route_lift_request sample_runtime counting_lifts to_annex readings two_lifts).1
route_lift_request-IsRoutedLift_example =
    route_lift_request-IsRoutedLift sample_runtime counting_lifts to_annex readings two_lifts
      two_lifts-IsLiftNode
