-- ===== src/Fleet/Adapter/Dry.antt =====
-- adapter.py of the fleet adapter: the dry run, which waits for a frame.  The events of each pause of
-- the loop are a parameter.
use open_rmf_adapters_quiksy.Base.{
  ℕ, zero, suc, ◌<◌, ◌≤◌, String, true, false, Option, none, some, List, [], ◌∷◌, ◌++◌, ◌≡◌, refl,
  arith, ltb, replicate, if◌then◌else◌,
}
use open_rmf_adapters_quiksy.Base.Dict.{get, put}
use open_rmf_adapters_quiksy.Base.Exec.{Result, ok, err, type_error}
use open_rmf_adapters_quiksy.Python.{Value, Fields, str, list, dict}
use open_rmf_adapters_quiksy.Python.Runtime.{Runtime}
use open_rmf_adapters_quiksy.Client.Ws.{close}
use open_rmf_adapters_quiksy.Fleet.Robot.{RobotHandle, RmfPorts, on_state}
use open_rmf_adapters_quiksy.Base.Act.{call, done, ◌>>=◌, ◌>>◌}
use open_rmf_adapters_quiksy.Fleet.Binding.{FleetWorld, FleetAct, outside, drain_frames, close_ws}
use open_rmf_adapters_quiksy.Pump.{
  PumpScene, PumpEvent, new_pump, start, stop, no_task, pump_step, running, frame_arrives,
}
use open_rmf_adapters_quiksy.Pump.Fleet.{RobotCallback, dispatch_fleet_frame-frames}
use open_rmf_adapters_quiksy.Pump.Fleet.Run.{run_fleet_frame, fleet_step, fleet_run}

module _ {S T H : Type 0} (rt : Runtime) (io : RmfPorts S T H) where
  -- `handles[name].on_state(state)`, of a handle that is there
  abbrev pub on_handle :
      String → Option (RobotHandle H) → Value → FleetWorld H S → Result (Unit {0}) × FleetWorld H S
  on_handle name none state w = (ok tt, w)
  on_handle name (some handle) state w =
      let (r, scene) = on_state rt io state (record { handle = handle; world = w.world }) in
      (r, record { handles = put w.handles name scene.handle; world = scene.world })

  -- the callback of the pump, here and in `_StatePumpRunner.run`
  unfoldable pub on_robot : RobotCallback (FleetWorld H S)
  on_robot (str name) state w = on_handle name (get w.handles name) state w
  on_robot (list vs) state w = (err type_error, w)
  on_robot (dict fs) state w = (err type_error, w)
  on_robot _ state w = (ok tt, w)

module _ {S : Type 0} (callback : RobotCallback S) where
  -- `for _ in range(n)`: the events of a pause, and the test behind it
  unfoldable pub wait_for_frame : ℕ → List (List PumpEvent) → PumpScene S → PumpScene S
  wait_for_frame zero pauses s = s
  wait_for_frame (suc n) [] s =
      let rest = wait_for_frame n [] s in if ltb 0 s.pump.frames_seen then s else rest
  wait_for_frame (suc n) (events ∷ pauses) s =
      let t = fleet_run callback events s in
      let rest = wait_for_frame n pauses t in if ltb 0 t.pump.frames_seen then t else rest

  -- `_run_dry` with the pump of a new client: the exit code, and how it leaves the pump
  unfoldable pub run_dry : List (List PumpEvent) → S → ℕ × PumpScene S
  run_dry pauses w =
      let t = stop (
        wait_for_frame 30 pauses (record {
          pump = start new_pump;
          ws = record { closed = false; failure_times = [] };
          world = w;
        })) in
      (if ltb 0 t.pump.frames_seen then 0 else 2, t)

  -- a pump that runs, of which no frame was seen
  record IsWaiting (s : PumpScene S) : Type 0 where
    runs : s.pump.task ≡ running
    connected : s.ws.closed ≡ false
    goes_on : s.pump.stop_requested ≡ false
    none_seen : s.pump.frames_seen ≡ 0

  fleet_step_mono :
      (e : PumpEvent) (s : PumpScene S)
      → s.pump.frames_seen ≤ (fleet_step callback e s).pump.frames_seen
  unfolding fleet_step run_fleet_frame pump_step start stop
  fleet_step_mono (frame_arrives (dict frame)) s =
      ground (arith, dispatch_fleet_frame-frames callback frame s)
  fleet_step_mono (frame_arrives v) s = omega arith
  fleet_step_mono e s = ground arith

  fleet_run_mono :
      (es : List PumpEvent) (s : PumpScene S)
      → s.pump.frames_seen ≤ (fleet_run callback es s).pump.frames_seen
  unfolding fleet_run
  fleet_run_mono [] s = omega arith
  fleet_run_mono (e ∷ es) s =
      omega (arith, fleet_step_mono e s, fleet_run_mono es (fleet_step callback e s))

  frame_seen :
      (frame : Fields) (s : PumpScene S)
      → IsWaiting s
      → 0 < (fleet_step callback (frame_arrives (dict frame)) s).pump.frames_seen
  unfolding fleet_step run_fleet_frame
  frame_seen frame s w =
      ground (arith, w.runs, w.connected, w.goes_on, dispatch_fleet_frame-frames callback frame s)

  waited :
      (n k : ℕ) (frame : Fields) (events : List PumpEvent) (more : List (List PumpEvent))
      (s : PumpScene S)
      → n < k
      → IsWaiting s
      → 0
        < (wait_for_frame k
            (replicate n [] ++ ((frame_arrives (dict frame) ∷ events) ∷ more))
            s).pump.frames_seen
  unfolding wait_for_frame fleet_run
  waited n zero frame events more s h w = absurd (omega (arith, h))
  waited zero (suc k) frame events more s h w = ground (
    arith,
    frame_seen frame s w,
    fleet_run_mono events (fleet_step callback (frame_arrives (dict frame)) s),
  )
  waited (suc n) (suc k) frame events more s h w =
      ground (arith, h, w.none_seen, waited n k frame events more s (omega (arith, h)) w)

  -- Where nothing happens in the first pauses of a dry run, and a frame comes in at the start of one of
  -- the thirty, the exit code is 0.
  pub run_dry-frame :
      (n : ℕ) (frame : Fields) (events : List PumpEvent) (more : List (List PumpEvent)) (w : S)
      → n < 30
      → (run_dry (replicate n [] ++ ((frame_arrives (dict frame) ∷ events) ∷ more)) w).0 ≡ 0
  unfolding run_dry start stop
  run_dry-frame n frame events more w h =
      let waiting : PumpScene S = record {
        pump = start new_pump;
        ws = record { closed = false; failure_times = [] };
        world = w;
      } in
      ground (
        arith,
        waited n 30 frame events more waiting h
            (record { runs = refl; connected = refl; goes_on = refl; none_seen = refl }),
      )

  -- Whatever comes in, a dry run leaves the pump stopped and its client closed.
  pub run_dry-stopped :
      (pauses : List (List PumpEvent)) (w : S)
      → ((run_dry pauses w).1.pump.task ≡ no_task) × ((run_dry pauses w).1.ws.closed ≡ true)
  unfolding run_dry stop close
  run_dry-stopped pauses w = (refl, refl)

module _ {S T H : Type 0} (rt : Runtime) (io : RmfPorts S T H) where
  -- The dry run in `main`: the pump runs until it is told to stop, and `pump.stop()` closes the socket.
  abbrev pub dry_mode : (S → S) → List (List PumpEvent) → FleetAct H S ℕ
  dry_mode closed_ws pauses =
      call drain_frames
        (λ w. let (code, t) = run_dry (on_robot rt io) pauses w in (ok code, t.world))
      >>= λ code. call close_ws (outside (λ w. (ok tt, closed_ws w))) >> done code
