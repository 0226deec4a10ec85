-- ===== src/Pump/Fleet/Run.antt =====
-- state_pump.py of the fleet adapter: the loop of the pump.
use open_rmf_adapters_quiksy.Base.{List, [], ◌∷◌, if◌then◌else◌}
use open_rmf_adapters_quiksy.Base.Exec.{Result, ok, err}
use open_rmf_adapters_quiksy.Python.{Fields, dict}
use open_rmf_adapters_quiksy.Pump.{PumpScene, PumpEvent, running, frame_arrives, finish, pump_step}
use open_rmf_adapters_quiksy.Pump.Fleet.{RobotCallback, dispatch_fleet_frame}

module _ {S : Type 0} (on_robot_state : RobotCallback S) where
  -- an exception that `_dispatch_frame` lets through ends the task
  abbrev pub after_frame : Result (Unit {0}) × PumpScene S → PumpScene S
  after_frame (ok done, s) = s
  after_frame (err e, s) = finish s

  -- One resumption of `_run`'s loop with a frame.
  unfoldable pub run_fleet_frame : Fields → PumpScene S → PumpScene S
  run_fleet_frame frame s =
      if s.ws.closed
      then finish s
      else if s.pump.stop_requested
      then finish s
      else after_frame (dispatch_fleet_frame on_robot_state frame s)

  -- The other events are those of every pump; a subscription yields no frame that is not a dict.
  unfoldable pub fleet_step : PumpEvent → PumpScene S → PumpScene S
  fleet_step (frame_arrives (dict frame)) s = elim s.pump.task [
    | running ↦ run_fleet_frame frame s
    | _ ↦ s
  ]
  fleet_step (frame_arrives _) s = s
  fleet_step e s = pump_step (λ frame w. (ok tt, w)) e s

  unfoldable pub fleet_run : List PumpEvent → PumpScene S → PumpScene S
  fleet_run [] s = s
  fleet_run (e ∷ es) s = fleet_run es (fleet_step e s)
