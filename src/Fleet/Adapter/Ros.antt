-- ===== src/Fleet/Adapter/Ros.antt =====
-- adapter.py of the fleet adapter: `rclpy.init()` and `rclpy.shutdown()` in `_run_full`.
use open_rmf_adapters_quiksy.Base.{
  Bool, true, false, Option, List, ◌∷◌, ◌≡◌, ◌∙◌, ap, refl, if◌then◌else◌,
}
use open_rmf_adapters_quiksy.Base.Dict.{Dict}
use open_rmf_adapters_quiksy.Base.Exec.{Result, ok, err, is_ok}
use open_rmf_adapters_quiksy.Base.Act.{
  Run, done, call, continue, try_finally, recover, handled, is_exception,
}
use open_rmf_adapters_quiksy.Base.Act.Keeps.{only, try_finally-calls}
use open_rmf_adapters_quiksy.Python.{Value}
use open_rmf_adapters_quiksy.Python.Runtime.{Runtime}
use open_rmf_adapters_quiksy.Fleet.Binding.{
  FleetCall, init_ros, shutdown_ros, FleetWorld, AdapterPorts, outside,
}
use open_rmf_adapters_quiksy.Fleet.Adapter.{
  Arguments, EntryPorts, ros_section, shut_down, with_rclpy,
}
use open_rmf_adapters_quiksy.Fleet.Adapter.Section.{IsOuter, ros_section-Keeps}

abbrev pub is_ros : FleetCall → Bool
is_ros init_ros = true
is_ros shutdown_ros = true
is_ros _ = false

is_ros-IsOuter : IsOuter is_ros
is_ros-IsOuter = record {
  bindings = λ b. refl;
  requests = λ q. refl;
  rclcpp = refl;
  sim = refl;
  start = refl;
  spawn = refl;
  executor = refl;
  node = refl;
  spinning = refl;
  stop = refl;
  join = refl;
  shutdown = refl;
}

module _ {H S V B G C : Type 0} (rt : Runtime) (io : AdapterPorts S V B G C)
    (entry_io : EntryPorts S) where
  abbrev pub ros_calls : Run FleetCall (FleetWorld H S) → List FleetCall
  ros_calls s = only is_ros s.log

  handled-ros :
      (p : Result (Unit {0}) × Run FleetCall (FleetWorld H S))
      → ros_calls (handled is_exception (done tt) p).1 ≡ ros_calls p.1
  handled-ros (ok done, s) = refl
  handled-ros (err e, s) = recovered (is_exception e)
    where
      recovered : (b : Bool) → ros_calls (recover b (done tt) e s).1 ≡ ros_calls s
      recovered true = refl
      recovered false = refl

  shut_down-ros :
      (s : Run FleetCall (FleetWorld H S))
      → ros_calls (shut_down rt io entry_io s).1 ≡ shutdown_ros ∷ ros_calls s
  shut_down-ros s = handled-ros (call shutdown_ros (outside entry_io.rclpy_shutdown) s)

  -- what an `init()` that returned is followed by
  initialised :
      (args : Arguments) (settings : Dict Value) (entry : Option Value)
      (p : Result (Unit {0}) × Run FleetCall (FleetWorld H S))
      → ros_calls
          (continue p (λ done.
            try_finally
              (ros_section rt io entry_io args settings entry)
              (shut_down rt io entry_io))).1
        ≡ (if is_ok p.0 then shutdown_ros ∷ ros_calls p.1 else ros_calls p.1)
  initialised args settings entry (ok done, s) =
      ap ros_calls (
        try_finally-calls ros_calls (ros_section rt io entry_io args settings entry)
          (shut_down rt io entry_io) s)
      ∙ shut_down-ros (ros_section rt io entry_io args settings entry s).1
      ∙ ap (λ calls. shutdown_ros ∷ calls)
          (ros_section-Keeps rt io entry_io is_ros is_ros-IsOuter args settings entry s)
  initialised args settings entry (err e, s) = refl

  -- Once `rclpy` could be imported, `rclpy.init()` is called once; where it returned, `rclpy.shutdown()`
  -- is called once, after it, whatever is returned or raised in between; where it raised, never.
  pub with_rclpy-ros :
      (args : Arguments) (settings : Dict Value) (entry : Option Value)
      (s : Run FleetCall (FleetWorld H S))
      → ros_calls (with_rclpy rt io entry_io args settings entry true s).1 ≡ (
          if is_ok (entry_io.rclpy_init s.world.world).0
          then shutdown_ros ∷ init_ros ∷ ros_calls s
          else init_ros ∷ ros_calls s)
  unfolding with_rclpy
  with_rclpy-ros args settings entry s =
      initialised args settings entry (call init_ros (outside entry_io.rclpy_init) s)
