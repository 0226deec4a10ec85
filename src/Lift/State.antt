-- ===== src/Lift/State.antt =====
-- packages/lift_adapter_quiksync/lift_adapter_quiksync/lift_handle.py: from a state frame of the
-- server to the field values of a ROS `LiftState`.
use open_rmf_adapters_quiksy.Base.{String, Option, or_default, List, [], ◌∷◌}
use open_rmf_adapters_quiksy.Base.Int.{ℤ, pos}
use open_rmf_adapters_quiksy.Base.Exec.{Result, ok, ◌>>=◌}
use open_rmf_adapters_quiksy.Python.{
  Value, Items, nil, cons, null, int, str, list, item, get, iterate, or_value,
}
use open_rmf_adapters_quiksy.Python.Runtime.{Runtime, to_int}
use open_rmf_adapters_quiksy.Client.TimeConv.{Time, millis_to_time_parts}

pub record LiftStateFields : Type 0 where
  pub lift_name : Value
  pub lift_time : Time
  pub current_floor : Value
  pub destination_floor : Value
  pub door_state : ℤ
  pub motion_state : ℤ
  pub available_modes : List ℤ
  pub current_mode : ℤ
  pub session_id : String

-- A state frame: its `session_id`, where the frame has one that does not count as false, and what is
-- read for its other keys.  In the wire format a session is a text.
pub record LiftFrame : Type 0 where
  pub session_id : Option String
  pub body : Value

module _ (rt : Runtime) where
  -- `[int(m["value"]) for m in modes_raw]`
  unfoldable pub mode_values : Items → Result (List ℤ)
  mode_values nil = ok []
  mode_values (cons m ms) = do
    raw ← item m "value"
    value ← to_int rt raw
    rest ← mode_values ms
    ok (value ∷ rest)

  unfoldable pub translate_state : LiftFrame → Result LiftStateFields
  translate_state f = do
    lift_time_ms ← item f.body "lift_time"
    lift_time ← millis_to_time_parts lift_time_ms
    available ← get f.body "available_modes" null
    modes ← iterate (or_value available (list nil))
    modes_flat ← mode_values modes
    lift_name ← item f.body "lift_name"
    current_floor ← get f.body "current_floor" (str "")
    destination_floor ← get f.body "destination_floor" (str "")
    door_raw ← get f.body "door_state" (int (pos 0))
    door_state ← to_int rt door_raw
    motion_raw ← get f.body "motion_state" (int (pos 0))
    motion_state ← to_int rt motion_raw
    mode ← item f.body "current_mode"
    mode_raw ← item mode "value"
    current_mode ← to_int rt mode_raw
    ok (record {
      lift_name = lift_name;
      lift_time = lift_time;
      current_floor = or_value current_floor (str "");
      destination_floor = or_value destination_floor (str "");
      door_state = door_state;
      motion_state = motion_state;
      available_modes = modes_flat;
      current_mode = current_mode;
      session_id = or_default f.session_id "";
    })
