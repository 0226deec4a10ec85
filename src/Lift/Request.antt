-- ===== src/Lift/Request.antt =====
-- packages/lift_adapter_quiksync/lift_adapter_quiksync/lift_handle.py: from a ROS `LiftRequest`, any
-- object with the attributes of one, to the fields of the POST.
pub mod RoundTrip
mod Tests
use open_rmf_adapters_quiksy.Base.{
  ℕ, String, Bool, true, false, Option, none, some, ◌==◌, is_empty, if◌then◌else◌,
}
use open_rmf_adapters_quiksy.Base.Int.{ℤ, pos, negsuc, eq_ℤ}
use open_rmf_adapters_quiksy.Base.Exec.{
  Exn, Result, ok, err, translation_error, type_error, value_error, ◌>>=◌, ◌>>◌, raise_if,
}
use open_rmf_adapters_quiksy.Python.{
  Value, null, bool, int, float, str, list, dict, object, getattr, is_none,
}
use open_rmf_adapters_quiksy.Python.Runtime.{Runtime, to_str, to_int}

-- The wire names "END_SESSION", "AGV_MODE" and "HUMAN_MODE"
pub data RequestType : Type 0 where
  end_session agv_mode human_mode : RequestType

-- The wire names "OPEN" and "CLOSED"
pub data DoorGoal : Type 0 where
  open_door closed_door : DoorGoal

pub record TranslatedLiftRequest : Type 0 where
  pub lift_name : String
  pub session_id : String
  pub request_type : RequestType
  pub destination_floor : String
  pub door_state : DoorGoal
  pub execution_id : String

abbrev pub request_no_request : ℤ
request_no_request = pos 0

unfoldable pub request_type_of : ℤ → Result RequestType
request_type_of z =
    if eq_ℤ z (pos 1)
    then ok end_session
    else if eq_ℤ z (pos 2)
    then ok agv_mode
    else if eq_ℤ z (pos 3)
    then ok human_mode
    else err translation_error

-- `DOOR_MOVING`, which is 1, raises as every unknown constant does.
unfoldable pub door_goal_of : ℤ → Result DoorGoal
door_goal_of z =
    if eq_ℤ z (pos 2)
    then ok open_door
    else if eq_ℤ z (pos 0)
    then ok closed_door
    else err translation_error

-- `except (TypeError, ValueError)`
abbrev pub coerced : Result ℤ → Result ℤ
coerced (err type_error) = err translation_error
coerced (err value_error) = err translation_error
coerced r = r

-- `execution_id or str(uuid.uuid4())`; `fresh` is what `uuid4` gives
abbrev pub execution_id_or : Option String → String → String
execution_id_or none fresh = fresh
execution_id_or (some id) fresh = if is_empty id then fresh else id

module _ (rt : Runtime) where
  unfoldable pub require_str : Value → Result String
  require_str value =
      if is_none value
      then err translation_error
      else if is_empty (to_str rt value)
      then err translation_error
      else ok (to_str rt value)

  unfoldable pub as_int : Value → Result ℤ
  as_int (bool b) = err translation_error
  as_int raw = coerced (to_int rt raw)

  unfoldable pub translate_request : Value → Option String → String → Result TranslatedLiftRequest
  translate_request ros_request execution_id fresh = do
    lift_name ← require_str (getattr ros_request "lift_name" null)
    session_id ← require_str (getattr ros_request "session_id" null)
    destination_floor ← require_str (getattr ros_request "destination_floor" null)
    request_type_int ← as_int (getattr ros_request "request_type" null)
    request_type ← request_type_of request_type_int
    let door_state_raw = getattr ros_request "door_state" null
    raise_if (is_none door_state_raw) translation_error
    door_state_int ← as_int (getattr door_state_raw "value" door_state_raw)
    door_state ← door_goal_of door_state_int
    ok (record {
      lift_name = lift_name;
      session_id = session_id;
      request_type = request_type;
      destination_floor = destination_floor;
      door_state = door_state;
      execution_id = execution_id_or execution_id fresh;
    })
