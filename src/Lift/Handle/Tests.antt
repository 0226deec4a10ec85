-- ===== src/Lift/Handle/Tests.antt =====
-- One lift handle on concrete messages and frames.
use open_rmf_adapters_quiksy.Base.{
  ℕ, ◌+◌, String, false, none, some, [], ◌∷◌, ◌≡◌, ◌≢◌, refl, arith, inl, inr, str_eq, str_eq_iff,
}
use open_rmf_adapters_quiksy.Base.Int.{pos}
use open_rmf_adapters_quiksy.Base.Dict.{get}
use open_rmf_adapters_quiksy.Base.Exec.{ok, err, connection_error}
use open_rmf_adapters_quiksy.Python.{
  Value, null, int, str, dict, list, nil, end, field, item, find, truthy, iterate,
}
use open_rmf_adapters_quiksy.Python.Runtime.{to_int}
use open_rmf_adapters_quiksy.Python as Py
use open_rmf_adapters_quiksy.Python.Sample.{sample_runtime}
use open_rmf_adapters_quiksy.Client.TimeConv.{millis_to_time_parts}
use open_rmf_adapters_quiksy.Lift.Session.{
  SessionManager, new, try_acquire, acquire_locked, evict_stale_locked, claim,
}
use open_rmf_adapters_quiksy.Lift.Session.Valid.{IsValid, new-IsValid, try_acquire-IsValid}
use open_rmf_adapters_quiksy.Lift.Session.Lock.{lock_of}
use open_rmf_adapters_quiksy.Lift.Session.Exclusion.{IsHeld, try_acquire-IsHeld}
use open_rmf_adapters_quiksy.Lift.Request.{RequestType, agv_mode, open_door, TranslatedLiftRequest}
use open_rmf_adapters_quiksy.Lift.Request.RoundTrip.{message_of, IsNamed}
use open_rmf_adapters_quiksy.Lift.State.{LiftFrame, LiftStateFields, mode_values, translate_state}
use open_rmf_adapters_quiksy.Lift.Handle.{LiftPorts, LiftScene, DispatchInputs, dispatch_request}
use open_rmf_adapters_quiksy.Lift.Handle.Requests.{rival_request_rejected, failed_post_keeps_lock}
use open_rmf_adapters_quiksy.Lift.Handle.Frames.{
  frame, request, handle_events, handle_events-IsValid,
}

-- Ports that count the posts and the published messages; the second set refuses every post.
abbrev sample_ports : LiftPorts (ℕ × ℕ)
sample_ports = record {
  post_lift_request = λ p s. (ok null, (s.0 + 1, s.1));
  publish_state_fields = λ f s. (ok tt, (s.0, s.1 + 1));
}

abbrev broken_ports : LiftPorts (ℕ × ℕ)
broken_ports = record {
  post_lift_request = λ p s. (err connection_error, s);
  publish_state_fields = λ f s. (err connection_error, s);
}

abbrev empty_manager : SessionManager
empty_manager = new (pos 100)

abbrev held_manager : SessionManager
held_manager = (try_acquire empty_manager "lobby" "fleet_a" 10 10).1

held_manager-IsValid : IsValid held_manager
held_manager-IsValid =
    try_acquire-IsValid empty_manager "lobby" "fleet_a" 10 10 (new-IsValid (pos 100))

held_manager-IsHeld : IsHeld (lock_of held_manager "lobby") "fleet_a" 10
unfolding lock_of new get try_acquire acquire_locked evict_stale_locked str_eq
held_manager-IsHeld =
    try_acquire-IsHeld empty_manager "lobby" "fleet_a" 10 10 (new-IsValid (pos 100)) refl (inl refl)

abbrev scene_with : SessionManager → LiftScene (ℕ × ℕ)
scene_with m = record {
  handle = record {
    lift_name = "lobby";
    namespace = none;
    state_dispatched = 0;
    requests_dispatched = 0;
    requests_rejected = 0;
  };
  manager = m;
  ports = (0, 0);
}

abbrev request_of : String → RequestType → TranslatedLiftRequest
request_of session type = record {
  lift_name = "lobby";
  session_id = session;
  destination_floor = "L2";
  request_type = type;
  door_state = open_door;
  execution_id = "e1";
}

abbrev inputs : DispatchInputs
inputs = record { execution_id = none; fresh = "e1"; now = 20; later = 21 }

fleet_a-IsNamed : (t : RequestType) → IsNamed (request_of "fleet_a" t)
unfolding str_eq
fleet_a-IsNamed t = record { lift = refl; session = refl; floor = refl }

fleet_b-IsNamed : IsNamed (request_of "fleet_b" agv_mode)
unfolding str_eq
fleet_b-IsNamed = record { lift = refl; session = refl; floor = refl }

fleets_differ : ◌≢◌ {A = String} "fleet_b" "fleet_a"
unfolding str_eq
fleets_differ e = ground (arith, str_eq_iff "fleet_b" "fleet_a")

rival_request_rejected_example :
    let s = scene_with held_manager in
    let (r, after) =
      dispatch_request sample_runtime sample_ports
        (message_of (request_of "fleet_b" agv_mode))
        inputs
        s in
    (r ≡ ok false)
    × (after.ports ≡ s.ports)
    × (after.handle.requests_rejected ≡ s.handle.requests_rejected + 1)
    × IsHeld (lock_of after.manager s.handle.lift_name) "fleet_a" 10
unfolding try_acquire acquire_locked evict_stale_locked new get claim str_eq
rival_request_rejected_example =
    rival_request_rejected sample_runtime sample_ports (request_of "fleet_b" agv_mode) inputs
      (scene_with held_manager) "fleet_a" 10 fleet_b-IsNamed refl refl held_manager-IsValid
      held_manager-IsHeld fleets_differ (inr (omega arith)) (omega arith)

failed_post_keeps_lock_example :
    let s = scene_with empty_manager in
    let (r, after) =
      dispatch_request sample_runtime broken_ports
        (message_of (request_of "fleet_a" agv_mode))
        inputs
        s in
    (r ≡ err connection_error)
    × (after.handle ≡ s.handle)
    × ((lock_of after.manager s.handle.lift_name).request ≡ some ("fleet_a", 21))
unfolding try_acquire acquire_locked evict_stale_locked new get str_eq
failed_post_keeps_lock_example =
    failed_post_keeps_lock sample_runtime broken_ports (request_of "fleet_a" agv_mode) inputs
      (scene_with empty_manager) (fleet_a-IsNamed agv_mode) refl refl (new-IsValid (pos 100)) refl
      (λ p. refl)

abbrev lift_body : Value
lift_body = dict (
    field "lift_name" (str "lobby") (
      field "lift_time" (int (pos 1_500)) (
        field "current_floor" (str "L1") (
          field "destination_floor" (str "L2") (
            field "door_state" (int (pos 0)) (
              field "motion_state" (int (pos 0))
                (field "current_mode" (dict (field "value" (int (pos 2)) end)) end)))))))

abbrev lift_frame : LiftFrame
lift_frame = record { session_id = some "fleet_b"; body = lift_body }

abbrev lift_fields : LiftStateFields
lift_fields = record {
  lift_name = str "lobby";
  lift_time = record { sec = pos 1; nanosec = 500_000_000 };
  current_floor = str "L1";
  destination_floor = str "L2";
  door_state = pos 0;
  motion_state = pos 0;
  available_modes = [];
  current_mode = pos 2;
  session_id = "fleet_b";
}

lift_frame_translates : translate_state sample_runtime lift_frame ≡ ok lift_fields
unfolding translate_state mode_values item Py.get find str_eq to_int truthy iterate
    millis_to_time_parts
lift_frame_translates = refl

handle_events-IsValid_example :
    IsValid
      (handle_events sample_runtime sample_ports (scene_with held_manager) (
        frame lift_frame 30
        ∷ request (message_of (request_of "fleet_b" agv_mode)) inputs
        ∷ [])).manager
handle_events-IsValid_example =
    handle_events-IsValid sample_runtime sample_ports (scene_with held_manager)
      (frame lift_frame 30 ∷ request (message_of (request_of "fleet_b" agv_mode)) inputs ∷ [])
      held_manager-IsValid
