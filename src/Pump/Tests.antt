-- ===== src/Pump/Tests.antt =====
-- Pumps on concrete frames.
use open_rmf_adapters_quiksy.Base.{String, List, ℕ, ◌+◌, false, [], ◌∷◌, ◌≡◌, refl}
use open_rmf_adapters_quiksy.Base.Exec.{ok, err, value_error}
use open_rmf_adapters_quiksy.Python.{Fields, null, dict, list, end, field}
use open_rmf_adapters_quiksy.Pump.{
  running, PumpScene, Callback, start_called, stop_called, frame_arrives, new_pump, start, pump_run,
  pump_step, run_frame, dispatch_frame,
}
use open_rmf_adapters_quiksy.Pump.Closed.{IsSilent, stop_is_final}
use open_rmf_adapters_quiksy.Pump.Counts.{arrivals, IsCaught, HasDrained, pump_run-HasDrained}
use open_rmf_adapters_quiksy.Pump.Fleet.{RobotCallback}
use open_rmf_adapters_quiksy.Pump.Fleet.Served.{Entry, robot, nothing, as_list, as_map}

-- Callbacks that count their calls, and raise for a null frame.
abbrev count_frames : Callback ℕ
count_frames null w = (err value_error, w + 1)
count_frames v w = (ok tt, w + 1)

abbrev count_robots : RobotCallback ℕ
count_robots name v w = (ok tt, w + 1)

abbrev fresh_scene : PumpScene ℕ
fresh_scene = record {
  pump = new_pump;
  ws = record { closed = false; failure_times = [] };
  world = 0;
}

abbrev running_scene : PumpScene ℕ
running_scene = record fresh_scene { pump = record new_pump { task = running } }

start_runs : pump_step count_frames start_called fresh_scene ≡ running_scene
unfolding pump_step start
start_runs = refl

stop_is_final_example :
    IsSilent running_scene
      (pump_run count_frames (stop_called ∷ start_called ∷ frame_arrives null ∷ []) running_scene)
stop_is_final_example =
    stop_is_final count_frames (start_called ∷ frame_arrives null ∷ []) running_scene

count_frames-IsCaught : IsCaught count_frames
count_frames-IsCaught null w = refl
count_frames-IsCaught v w = refl

pump_run-HasDrained_example :
    HasDrained count_frames
      (null ∷ dict end ∷ [])
      running_scene
      (pump_run count_frames (arrivals (null ∷ dict end ∷ [])) running_scene)
pump_run-HasDrained_example =
    pump_run-HasDrained count_frames (null ∷ dict end ∷ []) running_scene count_frames-IsCaught
      (record { task = refl; wanted = refl; connected = refl })

two_frames_one_failure :
    (pump_run count_frames (arrivals (null ∷ dict end ∷ [])) running_scene).pump.dispatches_ok ≡ 1
unfolding pump_run pump_step run_frame dispatch_frame
two_frames_one_failure = refl

abbrev two_entries : List (String × Entry)
two_entries = ("a", robot "a" end) ∷ ("b", nothing) ∷ []

abbrev fleet_map : Fields
fleet_map = field "robots" (dict (as_map two_entries)) end

abbrev fleet_list : Fields
fleet_list = field "robots" (list (as_list two_entries)) end
