-- ===== src/Fleet/Adapter/Section.antt =====
-- adapter.py of the fleet adapter: which calls are made between `rclpy.init()` and the `finally`.
use open_rmf_adapters_quiksy.Base.{
  String, Bool, true, false, Option, none, some, ◌≡◌, refl, inl, inr, Bool-cases,
}
use open_rmf_adapters_quiksy.Base.Dict.{Dict, get}
use open_rmf_adapters_quiksy.Base.Exec.{Result}
use open_rmf_adapters_quiksy.Base.Act.{
  done, call, ◌>>=◌, ◌>>◌, when, try_except, is_exception, is_binding_error, is_interrupt,
}
use open_rmf_adapters_quiksy.Base.Act.Keeps.{
  Keeps, bind-Keeps, then-Keeps, try_finally-Keeps, try_except-Keeps, when-Keeps, calls_of,
  call-Keeps,
}
use open_rmf_adapters_quiksy.Python.{Value}
use open_rmf_adapters_quiksy.Python.Runtime.{Runtime}
use open_rmf_adapters_quiksy.Client.Net.{Request}
use open_rmf_adapters_quiksy.Client.Http.Endpoints.{get_building_map}
use open_rmf_adapters_quiksy.Fleet.Binding.{
  BindingCall, FleetCall, binding, request, init_rclcpp, set_sim_time, start_adapter, spawn_pump,
  make_executor, add_node, spin, request_stop, join_pump, shutdown_executor, FleetWorld,
  AdapterPorts, FleetAct, outside, bind_easy_full_control,
}
use open_rmf_adapters_quiksy.Fleet.Binding.Calls.{
  bind_from_yaml-IsQuiet, bind_easy_full_control-IsQuiet,
}
use open_rmf_adapters_quiksy.Fleet.Adapter.{
  Arguments, EntryPorts, namespace_of, is_set, given_uri, bind_dynamic, bind_fleet, spin_section,
  serve, after_binding, ros_section,
}

-- A kind of call of which the section makes none
pub record IsOuter (kind : FleetCall → Bool) : Type 0 where
  pub bindings : (b : BindingCall) → kind (binding b) ≡ false
  pub requests : (q : Request) → kind (request q) ≡ false
  pub rclcpp : kind init_rclcpp ≡ false
  pub sim : kind set_sim_time ≡ false
  pub start : kind start_adapter ≡ false
  pub spawn : kind spawn_pump ≡ false
  pub executor : kind make_executor ≡ false
  pub node : kind add_node ≡ false
  pub spinning : kind spin ≡ false
  pub stop : kind request_stop ≡ false
  pub join : kind join_pump ≡ false
  pub shutdown : kind shutdown_executor ≡ false

module _ {H S V B G C : Type 0} (rt : Runtime) (io : AdapterPorts S V B G C)
    (entry_io : EntryPorts S) (kind : FleetCall → Bool) (outer : IsOuter kind) where
  abbrev KeepsCalls : {R : Type 0} → FleetAct H S R → Type 0
  KeepsCalls m = Keeps (calls_of {W = FleetWorld H S} kind) m

  one_call :
      {R : Type 0} (a : FleetCall) (port : S → Result R × S)
      → kind a ≡ false
      → KeepsCalls (call a (outside port))
  one_call a port h = call-Keeps kind a (outside port) h

  bind_then :
      {R Q : Type 0} (m : FleetAct H S R) (rest : R → FleetAct H S Q)
      → KeepsCalls m
      → ((r : R) → KeepsCalls (rest r))
      → KeepsCalls (m >>= rest)
  bind_then m rest h k = bind-Keeps (calls_of {W = FleetWorld H S} kind) m rest h k

  and_then :
      {Q : Type 0} (m : FleetAct H S (Unit {0})) (rest : FleetAct H S Q)
      → KeepsCalls m
      → KeepsCalls rest
      → KeepsCalls (m >> rest)
  and_then m rest h k = then-Keeps (calls_of {W = FleetWorld H S} kind) m rest h k

  bind_dynamic-Keeps :
      (settings : Dict Value) (entry : Option Value) (uri : Option String)
      → KeepsCalls (bind_dynamic rt io entry_io settings entry uri)
  unfolding bind_dynamic
  bind_dynamic-Keeps settings none uri = λ s. refl
  bind_dynamic-Keeps settings (some entry) uri =
      let q = get_building_map (namespace_of rt (get settings "namespace")) in
      bind_then (call (request q) (outside (entry_io.send q)))
        (λ building_map. bind_easy_full_control rt io entry building_map uri)
        (one_call (request q) (entry_io.send q) (outer.requests q))
        (λ building_map.
          bind_easy_full_control-IsQuiet rt io kind outer.bindings entry building_map uri)

  bind_fleet-Keeps :
      (args : Arguments) (settings : Dict Value) (entry : Option Value)
      → KeepsCalls (bind_fleet rt io entry_io args settings entry)
  unfolding bind_fleet
  bind_fleet-Keeps args settings entry s =
      elim (Bool-cases (is_set (get settings "dynamic_mode"))) [
        | inl dynamic ↦ rw dynamic (bind_dynamic-Keeps settings entry (given_uri args.server_uri) s)
        | inr yaml ↦ rw yaml (
            bind_from_yaml-IsQuiet rt io kind outer.bindings args.config args.nav_graph
              (given_uri args.server_uri) s)
      ]

  spin_section-Keeps : KeepsCalls (spin_section rt io entry_io)
  unfolding spin_section
  spin_section-Keeps =
      try_finally-Keeps (calls_of {W = FleetWorld H S} kind)
        (try_except is_interrupt (call spin (outside entry_io.spun)) (done tt))
        (call request_stop (outside entry_io.stop)
          >> (call join_pump (outside entry_io.join)
              >> call shutdown_executor (outside entry_io.executor_shutdown)))
        (try_except-Keeps (calls_of {W = FleetWorld H S} kind) is_interrupt
          (call spin (outside entry_io.spun)) (done tt) (one_call spin entry_io.spun outer.spinning)
          (λ s. refl))
        (and_then (call request_stop (outside entry_io.stop))
          (call join_pump (outside entry_io.join)
            >> call shutdown_executor (outside entry_io.executor_shutdown))
          (one_call request_stop entry_io.stop outer.stop)
          (and_then (call join_pump (outside entry_io.join))
            (call shutdown_executor (outside entry_io.executor_shutdown))
            (one_call join_pump entry_io.join outer.join)
            (one_call shutdown_executor entry_io.executor_shutdown outer.shutdown)))

  serve-Keeps : (use_sim_time : Bool) → KeepsCalls (serve rt io entry_io use_sim_time)
  unfolding serve
  serve-Keeps use_sim_time =
      and_then
        (when use_sim_time
          (try_except is_exception (call set_sim_time (outside entry_io.sim_time)) (done tt)))
        _
        (when-Keeps (calls_of {W = FleetWorld H S} kind) use_sim_time
          (try_except is_exception (call set_sim_time (outside entry_io.sim_time)) (done tt))
          (try_except-Keeps (calls_of {W = FleetWorld H S} kind) is_exception
            (call set_sim_time (outside entry_io.sim_time)) (done tt)
            (one_call set_sim_time entry_io.sim_time outer.sim) (λ s. refl)))
        (and_then (call start_adapter (outside entry_io.start)) _
          (one_call start_adapter entry_io.start outer.start)
          (and_then (call spawn_pump (outside entry_io.spawn)) _
            (one_call spawn_pump entry_io.spawn outer.spawn)
            (and_then (call make_executor (outside entry_io.executor)) _
              (one_call make_executor entry_io.executor outer.executor)
              (and_then (when entry_io.has_node (call add_node (outside entry_io.node_added)))
                (spin_section rt io entry_io)
                (when-Keeps (calls_of {W = FleetWorld H S} kind) entry_io.has_node
                  (call add_node (outside entry_io.node_added))
                  (one_call add_node entry_io.node_added outer.node))
                spin_section-Keeps))))

  after_binding-Keeps :
      (args : Arguments) (bound : Bool) → KeepsCalls (after_binding rt io entry_io args bound)
  unfolding after_binding
  after_binding-Keeps args true =
      and_then (serve rt io entry_io args.use_sim_time) (done 0) (serve-Keeps args.use_sim_time)
        (λ s. refl)
  after_binding-Keeps args false = λ s. refl

  pub ros_section-Keeps :
      (args : Arguments) (settings : Dict Value) (entry : Option Value)
      → KeepsCalls (ros_section rt io entry_io args settings entry)
  unfolding ros_section
  ros_section-Keeps args settings entry =
      and_then (when entry_io.has_init_rclcpp (call init_rclcpp (outside entry_io.rclcpp_init))) _
        (when-Keeps (calls_of {W = FleetWorld H S} kind) entry_io.has_init_rclcpp
          (call init_rclcpp (outside entry_io.rclcpp_init))
          (one_call init_rclcpp entry_io.rclcpp_init outer.rclcpp))
        (bind_then
          (try_except is_binding_error (bind_fleet rt io entry_io args settings entry >> done true)
            (done false))
          (after_binding rt io entry_io args)
          (try_except-Keeps (calls_of {W = FleetWorld H S} kind) is_binding_error
            (bind_fleet rt io entry_io args settings entry >> done true) (done false)
            (and_then (bind_fleet rt io entry_io args settings entry) (done true)
              (bind_fleet-Keeps args settings entry) (λ s. refl))
            (λ s. refl))
          (after_binding-Keeps args))
