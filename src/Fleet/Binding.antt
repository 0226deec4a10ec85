-- ===== src/Fleet/Binding.antt =====
-- packages/fleet_adapter_quiksync/fleet_adapter_quiksync/binding.py: binding a fleet to rmf_adapter,
-- which is an interface over a state of its own.
pub mod Shapes
pub mod Prepared
pub mod Listed
pub mod Calls
mod Tests
use open_rmf_adapters_quiksy.Base.{
  String, Bool, true, false, Option, none, some, List, [], ◌∷◌, is_empty, if◌then◌else◌,
}
use open_rmf_adapters_quiksy.Base.Dict.{Dict, get, put}
use open_rmf_adapters_quiksy.Base.Exec.{
  Exn, Result, ok, err, type_error, binding_error, outside_model,
}
use open_rmf_adapters_quiksy.Base.Act.{Run, Act, done, raises, pure, call, ◌>>=◌, ◌>>◌, when}
use open_rmf_adapters_quiksy.Python.{
  Value, Items, Float, null, str, list, dict, nil, cons, item, truthy, or_value, iterate,
}
use open_rmf_adapters_quiksy.Python as Py
use open_rmf_adapters_quiksy.Python.Runtime.{Runtime}
use open_rmf_adapters_quiksy.Client.Net.{Request}
use open_rmf_adapters_quiksy.Fleet.Robot.{RobotHandle, new_robot, prepare_registration}
use open_rmf_adapters_quiksy.Fleet.Binding.Shapes.{
  VehicleTraits, build_vehicle_traits, build_battery_system, build_graph,
  build_consider_request_dict, robots_listed,
}

-- What the binding calls, and what the entry point calls, apart from the loggers.
pub data BindingCall : Type 0 where
  make_traits make_battery deserialize_graph make_configuration load_configuration : BindingCall
  set_server_uri make_adapter add_easy_fleet : BindingCall
  configure_robot make_callbacks : String → BindingCall

pub data FleetCall : Type 0 where
  binding : BindingCall → FleetCall
  import_rmf_adapter import_rclpy init_ros shutdown_ros init_rclcpp : FleetCall
  request : Request → FleetCall
  set_sim_time start_adapter spawn_pump make_executor add_node spin : FleetCall
  request_stop join_pump shutdown_executor : FleetCall
  drain_frames close_ws close_http close_auth : FleetCall

-- The handles of the robots, with the state of what is called.
pub record FleetWorld (H S : Type 0) : Type 0 where
  pub handles : Dict (RobotHandle H)
  pub world : S

-- rmf_adapter: `V`, `B`, `G` and `C` are its traits, battery systems, graphs and configurations. What
-- gives None gives `none` or `false`.
pub record AdapterPorts (S V B G C : Type 0) : Type 0 where
  pub vehicle_traits : VehicleTraits → S → Result V × S
  pub battery_system : Float → Float → S → Result B × S
  pub deserialize : Value → S → Result G × S
  pub fleet_configuration : Value → G → V → B → Items → S → Result C × S
  pub from_config_files : String → String → S → Result (Option C) × S
  pub write_server_uri : C → String → S → Result (Unit {0}) × S
  pub adapter_make : String → S → Result Bool × S
  pub easy_fleet : C → S → Result (Unit {0}) × S
  pub known_robots : C → List String
  pub known_configuration : C → String → S → Result (Unit {0}) × S
  pub robot_configuration : S → Result (Unit {0}) × S
  pub robot_callbacks : String → S → Result (Unit {0}) × S

abbrev pub Handles : Type 0 → Type 0
Handles H = Dict (RobotHandle H)

abbrev pub handles_of : {H S : Type 0} → Run FleetCall (FleetWorld H S) → Handles H
handles_of s = s.world.handles

abbrev pub FleetAct : Type 0 → Type 0 → Type 0 → Type 0
FleetAct H S R = Act FleetCall (FleetWorld H S) R

-- `handles.get(name)`, or a new handle
abbrev pub handle_or_new : {H : Type 0} → String → Option (RobotHandle H) → RobotHandle H
handle_or_new name (some handle) = handle
handle_or_new name none = new_robot name

module _ {H S : Type 0} where
  -- a call of something that does not reach the handles
  abbrev pub outside :
      {R : Type 0} → (S → Result R × S) → FleetWorld H S → Result R × FleetWorld H S
  outside port w = let (r, s) = port w.world in (r, record w { world = s })

  abbrev pub store : Dict (RobotHandle H) → FleetAct H S (Unit {0})
  store handles s = (ok tt, record s { world = record (s.world) { handles = handles } })

  abbrev pub with_handles : {R : Type 0} → (Dict (RobotHandle H) → FleetAct H S R) → FleetAct H S R
  with_handles m s = m s.world.handles s

  -- `handle.prepare_registration(...)` of the handle in the dict
  abbrev pub prepare : String → RobotHandle H → FleetAct H S (Unit {0})
  prepare name handle =
      with_handles (λ handles. store (put handles name (prepare_registration handle)))

  -- `handles[robot_name] = handle`, for a handle that was missing
  abbrev pub keep_handle : String → FleetAct H S (RobotHandle H)
  keep_handle name = with_handles (λ handles.
      store (put handles name (handle_or_new name (get handles name)))
      >> done (handle_or_new name (get handles name)))

  -- `if adapter is None: raise`
  abbrev pub needed : Bool → FleetAct H S (Unit {0})
  needed true = done tt
  needed false = raises binding_error

  abbrev pub needed_configuration : {C : Type 0} → Option C → FleetAct H S C
  needed_configuration (some c) = done c
  needed_configuration none = raises binding_error

module _ {H S V B G C : Type 0} (rt : Runtime) (io : AdapterPorts S V B G C) where
  -- the adapter, and the fleet added to it
  unfoldable pub add_fleet : C → FleetAct H S (Unit {0})
  add_fleet c =
      call (binding make_adapter) (outside (io.adapter_make "fleet_adapter_quiksync")) >>= λ made.
      needed made >> call (binding add_easy_fleet) (outside (io.easy_fleet c))

  unfoldable pub write_uri : C → Option String → FleetAct H S (Unit {0})
  write_uri c none = done tt
  write_uri c (some uri) =
      if is_empty uri
      then done tt
      else call (binding set_server_uri) (outside (io.write_server_uri c uri))

  unfoldable pub build_fleet_configuration : Value → Value → FleetAct H S C
  build_fleet_configuration entry building_map = pure (item entry "fleet_name") >>= λ fleet_name.
      pure (item entry "traits") >>= λ traits. pure (build_vehicle_traits rt traits) >>= λ v.
      call (binding make_traits) (outside (io.vehicle_traits v)) >>= λ vehicle.
      pure (item entry "battery") >>= λ battery. pure (build_battery_system rt battery) >>= λ b.
      call (binding make_battery) (outside (io.battery_system b.0 b.1)) >>= λ system.
      pure (item entry "nav_graph_name") >>= λ name.
      pure (build_graph rt building_map name) >>= λ g.
      call (binding deserialize_graph) (outside (io.deserialize g)) >>= λ graph.
      pure (Py.get entry "task_categories" null) >>= λ given.
      pure (build_consider_request_dict (or_value given (list nil))) >>= λ categories.
      call (binding make_configuration)
        (outside (io.fleet_configuration fleet_name graph vehicle system categories))

  -- the loop over `known_robots`
  unfoldable pub prepare_known : C → List String → FleetAct H S (Unit {0})
  prepare_known c [] = done tt
  prepare_known c (name ∷ names) = keep_handle name >>= λ handle.
      call (binding (configure_robot name)) (outside (io.known_configuration c name))
      >> (call (binding (make_callbacks name)) (outside (io.robot_callbacks name))
          >> (prepare name handle >> prepare_known c names))

  unfoldable pub bind_from_yaml :
      (config_path nav_graph_path : String) (server_uri : Option String) → FleetAct H S (Unit {0})
  bind_from_yaml config_path nav_graph_path server_uri =
      if is_empty config_path
      then raises binding_error
      else if is_empty nav_graph_path
      then raises binding_error
      else (call (binding load_configuration)
            (outside (io.from_config_files config_path nav_graph_path))
          >>= needed_configuration
          >>= λ c. write_uri c server_uri >> (add_fleet c >> prepare_known c (io.known_robots c)))

  -- one robot of the discovery, by its name and the handle of that name
  unfoldable pub prepare_listed : String → Option (RobotHandle H) → FleetAct H S (Unit {0})
  prepare_listed name none = done tt
  prepare_listed name (some handle) =
      call (binding (configure_robot name)) (outside io.robot_configuration)
      >> (call (binding (make_callbacks name)) (outside (io.robot_callbacks name))
          >> prepare name handle)

  -- Where a name is not false and no text, the model stops: its handles have texts for names.
  unfoldable pub prepare_named : Value → FleetAct H S (Unit {0})
  prepare_named (str name) =
      if is_empty name
      then done tt
      else with_handles (λ handles. prepare_listed name (get handles name))
  prepare_named (list vs) = if truthy (list vs) then raises type_error else done tt
  prepare_named (dict fs) = if truthy (dict fs) then raises type_error else done tt
  prepare_named v = if truthy v then raises outside_model else done tt

  unfoldable pub prepare_robots : Items → FleetAct H S (Unit {0})
  prepare_robots nil = done tt
  prepare_robots (cons robot robots) =
      pure (Py.get robot "name" null) >>= prepare_named >> prepare_robots robots

  unfoldable pub bind_easy_full_control : Value → Value → Option String → FleetAct H S (Unit {0})
  bind_easy_full_control entry building_map server_uri =
      pure (item entry "fleet_name") >>= λ fleet_name.
      build_fleet_configuration entry building_map >>= λ c.
      write_uri c server_uri >> (add_fleet c >> (pure (robots_listed entry) >>= prepare_robots))
