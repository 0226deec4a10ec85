-- ===== src/Fleet/Robot/Tests.antt =====
-- One robot on concrete frames.
use open_rmf_adapters_quiksy.Base.{
  ℕ, ◌+◌, true, Option, none, some, [], ◌∷◌, ◌≡◌, refl, str_eq, ltb, if◌then◌else◌,
}
use open_rmf_adapters_quiksy.Base.Int.{pos}
use open_rmf_adapters_quiksy.Base.Exec.{ok}
use open_rmf_adapters_quiksy.Python.{
  Value, null, int, str, dict, end, field, find, item, get, finite,
}
use open_rmf_adapters_quiksy.Python.Runtime.{to_float}
use open_rmf_adapters_quiksy.Python.Sample.{sample_runtime}
use open_rmf_adapters_quiksy.Fleet.Robot.{
  RmfPorts, RobotScene, RobotPose, new_robot, location_of, with_percent, with_location, pose_at,
  pose_of, to_rmf_robot_state,
}
use open_rmf_adapters_quiksy.Fleet.Robot.Laws.{StaysBound}
use open_rmf_adapters_quiksy.Fleet.Robot.Runs.{
  on_states, on_states-StaysBound, IsRegistered, on_states-IsRegistered,
}

-- An rmf_adapter that takes a robot at the third attempt; robot states are poses, handles numbers.
abbrev answer_of : ℕ → Option ℕ
answer_of n = if ltb n 2 then none else some 7

abbrev sample_rmf : RmfPorts ℕ RobotPose ℕ
sample_rmf = record {
  importable = true;
  make_state = λ p. ok p;
  add_robot = λ name t n. (ok (answer_of n), n + 1);
  update = λ h t activity n. (ok tt, n);
}

abbrev prepared_scene : RobotScene ℕ ℕ
prepared_scene = record { handle = record (new_robot "r1") { prepared = true }; world = 0 }

abbrev bound_scene : RobotScene ℕ ℕ
bound_scene = record { handle = record (new_robot "r1") { rmf_handle = some 7 }; world = 0 }

abbrev robot_frame : Value
robot_frame = dict (
    field "location"
      (dict (
        field "x" (int (pos 1)) (
          field "y" (int (pos 2)) (field "yaw" (int (pos 0)) (field "level_name" (str "L1") end)))))
      (field "battery_percent" (int (pos 50)) end))

abbrev sample_pose : RobotPose
sample_pose = record {
  level_name = str "L1";
  x = finite (pos 1) 0;
  y = finite (pos 2) 0;
  yaw = finite (pos 0) 0;
  battery_soc = finite (pos 50) 0;
}

robot_frame_translates :
    to_rmf_robot_state sample_runtime sample_rmf robot_frame ≡ ok (some sample_pose)
unfolding to_rmf_robot_state pose_of pose_at with_location with_percent location_of item get find
    str_eq to_float
robot_frame_translates = refl

on_states-StaysBound_example :
    StaysBound 7 bound_scene.handle
      (on_states sample_runtime sample_rmf (robot_frame ∷ null ∷ []) bound_scene).handle
on_states-StaysBound_example =
    on_states-StaysBound sample_runtime sample_rmf (robot_frame ∷ null ∷ []) bound_scene 7 refl

on_states-IsRegistered_example : IsRegistered sample_runtime sample_rmf 2 7 prepared_scene (
    on_states sample_runtime sample_rmf
      (robot_frame ∷ robot_frame ∷ robot_frame ∷ [])
      prepared_scene)
on_states-IsRegistered_example =
    on_states-IsRegistered sample_runtime sample_rmf
      ((robot_frame, sample_pose) ∷ (robot_frame, sample_pose) ∷ []) robot_frame sample_pose 7
      prepared_scene refl refl (robot_frame_translates, (robot_frame_translates, tt))
      robot_frame_translates (refl, (refl, refl))
