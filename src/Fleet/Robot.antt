-- ===== src/Fleet/Robot.antt =====
-- robot_handle.py: the handle of one robot, which registers with Open-RMF on the first valid frame.
-- rmf_adapter and numpy are an interface: whether they can be imported, the constructor of
-- `RobotState`, `add_robot` and `update`, over a state of their own.
pub mod Laws
pub mod Runs
mod Tests
use open_rmf_adapters_quiksy.Base.{
  ℕ, ◌+◌, String, Bool, true, false, not, Option, none, some, if◌then◌else◌,
}
use open_rmf_adapters_quiksy.Base.Exec.{
  Exn, Result, ok, err, ◌>>=◌, key_error, type_error, value_error,
}
use open_rmf_adapters_quiksy.Python.{Value, Float, null, bool, int, float, dict, item, is_dict}
use open_rmf_adapters_quiksy.Python as Py
use open_rmf_adapters_quiksy.Python.Runtime.{Runtime, to_float}

-- The arguments of `RobotState(level_name, np.array([x, y, yaw]), battery_soc)`
pub record RobotPose : Type 0 where
  pub level_name : Value
  pub x : Float
  pub y : Float
  pub yaw : Float
  pub battery_soc : Float

-- rmf_adapter over its own state `S`: `T` are its robot states, `H` its update handles.  `add_robot`
-- gives None as `none`.
pub record RmfPorts (S T H : Type 0) : Type 0 where
  pub importable : Bool
  pub make_state : RobotPose → Result T
  pub add_robot : String → T → S → Result (Option H) × S
  pub update : H → T → Value → S → Result (Unit {0}) × S

-- `prepared` is whether `_fleet_handle` is set; what `prepare_registration` stashes goes to
-- `add_robot` as it is, and is part of that port.
pub record RobotHandle (H : Type 0) : Type 0 where
  pub robot_name : String
  pub latest_state : Option Value
  pub rmf_handle : Option H
  pub current_activity : Value
  pub prepared : Bool
  pub updates_pushed : ℕ
  pub updates_dropped_no_handle : ℕ
  pub registrations_rejected : ℕ

pub record RobotScene (S H : Type 0) : Type 0 where
  pub handle : RobotHandle H
  pub world : S

abbrev pub new_robot : {H : Type 0} → String → RobotHandle H
new_robot name = record {
  robot_name = name;
  latest_state = none;
  rmf_handle = none;
  current_activity = null;
  prepared = false;
  updates_pushed = 0;
  updates_dropped_no_handle = 0;
  registrations_rejected = 0;
}

module _ {H : Type 0} where
  unfoldable pub prepare_registration : RobotHandle H → RobotHandle H
  prepare_registration h = record h { prepared = true }

  unfoldable pub bind : H → RobotHandle H → RobotHandle H
  bind rmf h = record h { rmf_handle = some rmf }

  unfoldable pub set_current_activity : Value → RobotHandle H → RobotHandle H
  set_current_activity activity h = record h { current_activity = activity }

  abbrev pub dropped : RobotHandle H → RobotHandle H
  dropped h = record h { updates_dropped_no_handle = h.updates_dropped_no_handle + 1 }

  abbrev pub rejected : RobotHandle H → RobotHandle H
  rejected h = record h { registrations_rejected = h.registrations_rejected + 1 }

  abbrev pub pushed : RobotHandle H → RobotHandle H
  pushed h = record h { updates_pushed = h.updates_pushed + 1 }

-- `except (KeyError, TypeError, ValueError): return None`
abbrev pub uncoerced : {A : Type 0} → Result A → Result (Option A)
uncoerced (ok a) = ok (some a)
uncoerced (err key_error) = ok none
uncoerced (err type_error) = ok none
uncoerced (err value_error) = ok none
uncoerced (err e) = err e

-- `isinstance(v, (int, float))`, which a bool is too
abbrev pub is_number : Value → Bool
is_number (bool b) = true
is_number (int z) = true
is_number (float x) = true
is_number _ = false

module _ (rt : Runtime) where
  unfoldable pub location_of : Value → Result (Float × Float × Float × Value)
  location_of location = do
    raw_x ← item location "x"
    x ← to_float rt raw_x
    raw_y ← item location "y"
    y ← to_float rt raw_y
    raw_yaw ← item location "yaw"
    yaw ← to_float rt raw_yaw
    level_name ← item location "level_name"
    ok (x, y, yaw, level_name)

  -- `battery_percent` with the location that was read
  unfoldable pub with_percent : Value → Float × Float × Float × Value → Result (Option RobotPose)
  with_percent battery (x, y, yaw, level_name) =
      if not (is_number battery)
      then ok none
      else (to_float rt battery >>= λ percent. ok (
          some (record {
            level_name = level_name;
            x = x;
            y = y;
            yaw = yaw;
            battery_soc = rt.divide_by_100 percent;
          })))

  unfoldable pub with_location :
      Value → Option (Float × Float × Float × Value) → Result (Option RobotPose)
  with_location state none = ok none
  with_location state (some location) =
      Py.get state "battery_percent" null >>= λ battery. with_percent battery location

  unfoldable pub pose_at : Value → Value → Result (Option RobotPose)
  pose_at state location =
      if not (is_dict location)
      then ok none
      else (uncoerced (location_of location) >>= with_location state)

  -- The robot state of a frame, without the constructor of rmf_adapter.
  unfoldable pub pose_of : Value → Result (Option RobotPose)
  pose_of state = Py.get state "location" null >>= pose_at state

module _ {S T H : Type 0} (rt : Runtime) (io : RmfPorts S T H) where
  -- `_to_rmf_robot_state`
  unfoldable pub to_rmf_robot_state : Value → Result (Option T)
  to_rmf_robot_state state =
      if io.importable
      then (pose_of rt state >>= λ pose. elim pose [
        | none ↦ ok none
        | some p ↦ io.make_state p >>= λ t. ok (some t)
      ])
      else ok none

  -- `_attempt_lazy_register`
  unfoldable pub attempt_lazy_register : T → RobotScene S H → RobotScene S H
  attempt_lazy_register t s =
      let (r, world') = io.add_robot s.handle.robot_name t s.world in
      elim r [
        | ok (some rmf) ↦ record { handle = pushed (bind rmf s.handle); world = world' }
        | ok none ↦ record { handle = rejected s.handle; world = world' }
        | err e ↦ record { handle = rejected s.handle; world = world' }
      ]

  -- `handle.update(...)`, whose exceptions are logged
  unfoldable pub push_update : H → T → RobotScene S H → RobotScene S H
  push_update rmf t s =
      let (r, world') = io.update rmf t s.handle.current_activity s.world in
      elim r [
        | ok _ ↦ record { handle = pushed s.handle; world = world' }
        | err e ↦ record { handle = s.handle; world = world' }
      ]

  -- The two branches that translate, with what the translation gave; the third does not look at it.
  unfoldable pub on_translated_state :
      Result (Option T) → RobotScene S H → Result (Unit {0}) × RobotScene S H
  on_translated_state (err e) s = (err e, s)
  on_translated_state (ok none) s = elim s.handle.rmf_handle [
    | some rmf ↦ (ok tt, s)
    | none ↦ (ok tt, record s { handle = dropped s.handle })
  ]
  on_translated_state (ok (some t)) s = elim s.handle.rmf_handle [
    | some rmf ↦ (ok tt, push_update rmf t s)
    | none ↦ (ok tt, attempt_lazy_register t s)
  ]

  abbrev pub is_bound : RobotHandle H → Bool
  is_bound h = elim h.rmf_handle [ some rmf ↦ true | none ↦ false ]

  unfoldable pub on_state : Value → RobotScene S H → Result (Unit {0}) × RobotScene S H
  on_state state s =
      let seen = record s { handle = record (s.handle) { latest_state = some state } } in
      if is_bound s.handle
      then on_translated_state (to_rmf_robot_state state) seen
      else if s.handle.prepared
      then on_translated_state (to_rmf_robot_state state) seen
      else (ok tt, record seen { handle = dropped seen.handle })
