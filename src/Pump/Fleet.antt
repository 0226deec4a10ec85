-- ===== src/Pump/Fleet.antt =====
-- packages/fleet_adapter_quiksync/fleet_adapter_quiksync/state_pump.py: the pump of a fleet.  It
-- runs as the other pumps do, with `dispatch_robots` as what a frame goes through.
pub mod Run
pub mod Served
use open_rmf_adapters_quiksy.Base.{ℕ, ◌+◌, none, some, ◌≡◌, refl, arith, if◌then◌else◌}
use open_rmf_adapters_quiksy.Base.Exec.{Result, ok, err}
use open_rmf_adapters_quiksy.Base.Act.{is_exception}
use open_rmf_adapters_quiksy.Python.{
  Value, Items, Fields, null, nil, cons, dict, list, find, truthy, values_of,
}
use open_rmf_adapters_quiksy.Pump.{PumpScene}

-- `await self._on_robot_state(name, robot)`
abbrev pub RobotCallback : Type 0 → Type 0
RobotCallback S = Value → Value → S → Result (Unit {0}) × S

-- `robot_iter`: the robots of a map or of a list; none where `robots` is something else
unfoldable pub robots_of : Value → Items
robots_of (dict fs) = values_of fs
robots_of (list vs) = vs
robots_of _ = nil

-- `robot.get("name")` of a dict, where it is neither missing nor false
unfoldable pub robot_name : Value → Value
robot_name (dict fs) = elim (find fs "name") [ some name ↦ name | none ↦ null ]
robot_name _ = null

module _ {S : Type 0} (on_robot_state : RobotCallback S) where
  -- `except Exception` logs and goes on; another exception is raised.
  unfoldable pub dispatch_robot : Value → PumpScene S → Result (Unit {0}) × PumpScene S
  dispatch_robot robot s =
      let (r, world') = on_robot_state (robot_name robot) robot s.world in
      if truthy (robot_name robot)
      then elim r [
        | ok _ ↦ (
          ok tt,
          record s {
            pump = record (s.pump) { dispatches_ok = s.pump.dispatches_ok + 1 };
            world = world';
          },
        )
        | err e ↦ (if is_exception e then ok tt else err e, record s { world = world' })
      ]
      else (ok tt, s)

  unfoldable pub dispatch_robots : Items → PumpScene S → Result (Unit {0}) × PumpScene S
  dispatch_robots nil s = (ok tt, s)
  dispatch_robots (cons robot robots) s =
      let (r, t) = dispatch_robot robot s in
      let rest = dispatch_robots robots t in elim r [ ok _ ↦ rest | err e ↦ (err e, t) ]

  -- `_dispatch_frame` of a frame, which is a dict as the subscription yields it
  unfoldable pub dispatch_fleet_frame : Fields → PumpScene S → Result (Unit {0}) × PumpScene S
  dispatch_fleet_frame frame s =
      dispatch_robots (elim (find frame "robots") [ some robots ↦ robots_of robots | none ↦ nil ])
        (record s { pump = record (s.pump) { frames_seen = s.pump.frames_seen + 1 } })

module _ {S : Type 0} (on_robot_state : RobotCallback S) where
  dispatch_robot-frames :
      (robot : Value) (s : PumpScene S)
      → (dispatch_robot on_robot_state robot s).1.pump.frames_seen ≡ s.pump.frames_seen
  unfolding dispatch_robot
  dispatch_robot-frames robot s = ground arith

  dispatch_robots-frames :
      (robots : Items) (s : PumpScene S)
      → (dispatch_robots on_robot_state robots s).1.pump.frames_seen ≡ s.pump.frames_seen
  unfolding dispatch_robots
  dispatch_robots-frames nil s = refl
  dispatch_robots-frames (cons robot robots) s = ground (
    arith,
    dispatch_robot-frames robot s,
    dispatch_robots-frames robots (dispatch_robot on_robot_state robot s).1,
  )

  -- Every frame is counted, whatever is in it.
  pub dispatch_fleet_frame-frames :
      (frame : Fields) (s : PumpScene S)
      → (dispatch_fleet_frame on_robot_state frame s).1.pump.frames_seen ≡ s.pump.frames_seen + 1
  unfolding dispatch_fleet_frame
  dispatch_fleet_frame-frames frame s =
      dispatch_robots-frames _
        (record s { pump = record (s.pump) { frames_seen = s.pump.frames_seen + 1 } })

  -- The map of robots that the schema asks for and the older list of them are served alike.
  pub robots_map_or_list :
      (fs frame listed : Fields) (s : PumpScene S)
      → find frame "robots" ≡ some (dict fs)
      → find listed "robots" ≡ some (list (values_of fs))
      → dispatch_fleet_frame on_robot_state frame s ≡ dispatch_fleet_frame on_robot_state listed s
  unfolding dispatch_fleet_frame robots_of
  robots_map_or_list fs frame listed s h k = rw h (rw k refl)
