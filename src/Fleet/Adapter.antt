-- ===== src/Fleet/Adapter.antt =====
-- packages/fleet_adapter_quiksync/fleet_adapter_quiksync/adapter.py: the entry point of the fleet
-- adapter.  The log calls and the argument parser are not modelled; the thread of the state pump is
-- started and stopped by calls of an interface.
pub mod Discovery
pub mod Handles
pub mod Dry
pub mod Closing
pub mod Section
pub mod Ros
mod Tests
use open_rmf_adapters_quiksy.Base.{
  ℕ, String, Bool, true, false, not, ◌||◌, Option, none, some, List, [], ◌∷◌, is_empty,
  if◌then◌else◌,
}
use open_rmf_adapters_quiksy.Base.Dict.{Dict, get}
use open_rmf_adapters_quiksy.Base.Exec.{
  Exn, Result, ok, err, binding_error, config_error, import_error, runtime_error,
}
use open_rmf_adapters_quiksy.Base.Act.{
  Run, Act, done, raises, pure, call, ◌>>=◌, ◌>>◌, when, try_finally, try_except, is_exception,
  is_binding_error, is_interrupt,
}
use open_rmf_adapters_quiksy.Python.{Value, Items, null, str, truthy}
use open_rmf_adapters_quiksy.Python.Runtime.{Runtime, to_str}
use open_rmf_adapters_quiksy.Client.Net.{Request}
use open_rmf_adapters_quiksy.Client.Http.Endpoints.{get_discovery, get_building_map}
use open_rmf_adapters_quiksy.Config.Settings.{Files}
use open_rmf_adapters_quiksy.Config.Fleet.{from_yaml, from_env}
use open_rmf_adapters_quiksy.Config.Url.{ws_base_url}
use open_rmf_adapters_quiksy.Fleet.Robot.{RobotHandle}
use open_rmf_adapters_quiksy.Fleet.Binding.{
  FleetCall, FleetWorld, AdapterPorts, FleetAct, outside, store, bind_from_yaml,
  bind_easy_full_control, import_rmf_adapter, import_rclpy, init_ros, shutdown_ros, init_rclcpp,
  request, set_sim_time, start_adapter, spawn_pump, make_executor, add_node, spin, request_stop,
  join_pump, shutdown_executor, close_ws, close_http, close_auth,
}
use open_rmf_adapters_quiksy.Fleet.Adapter.Discovery.{fetch_fleet_entry, build_robot_handles}

-- The parsed arguments; an argument that was not given is the empty text.
pub record Arguments : Type 0 where
  pub config : String
  pub nav_graph : String
  pub dry_run : Bool
  pub server_uri : String
  pub use_sim_time : Bool

-- What the entry point calls besides rmf_adapter's builders.  `close()` of the clients raises nothing.
pub record EntryPorts (S : Type 0) : Type 0 where
  pub load_rmf_adapter : S → Result (Unit {0}) × S
  pub load_rclpy : S → Result (Unit {0}) × S
  pub rclpy_init : S → Result (Unit {0}) × S
  pub rclpy_shutdown : S → Result (Unit {0}) × S
  pub has_init_rclcpp : Bool
  pub rclcpp_init : S → Result (Unit {0}) × S
  pub send : Request → S → Result Value × S
  pub sim_time : S → Result (Unit {0}) × S
  pub start : S → Result (Unit {0}) × S
  pub spawn : S → Result (Unit {0}) × S
  pub executor : S → Result (Unit {0}) × S
  pub has_node : Bool
  pub node_added : S → Result (Unit {0}) × S
  pub spun : S → Result (Unit {0}) × S
  pub stop : S → Result (Unit {0}) × S
  pub join : S → Result (Unit {0}) × S
  pub executor_shutdown : S → Result (Unit {0}) × S
  pub closed_ws : S → S
  pub closed_http : S → S
  pub closed_auth : S → S

abbrev pub is_import_error : Exn → Bool
is_import_error import_error = true
is_import_error _ = false

-- `config.namespace`; a value that is no text goes into the query by its text
abbrev pub namespace_of : Runtime → Option Value → Option String
namespace_of rt none = none
namespace_of rt (some null) = none
namespace_of rt (some v) = some (to_str rt v)

-- a setting with a default that counts as false
abbrev pub is_set : Option Value → Bool
is_set (some v) = truthy v
is_set none = false

abbrev pub or_null : Option Value → Value
or_null (some v) = v
or_null none = null

-- `args.server_uri or None`
abbrev pub given_uri : String → Option String
given_uri s = if is_empty s then none else some s

-- `build_clients`: only the address of the web socket can be refused
unfoldable pub build_clients : Dict Value → Result String
build_clients settings = ws_base_url (or_null (get settings "base_url"))

-- the settings from the file, or from the environment
unfoldable pub load_config :
    Runtime
    → (String → Result Value)
    → (String → String)
    → (String → Option String)
    → Files
    → String
    → Result (Dict Value)
load_config rt yaml upper environ files path =
    if is_empty path then from_env rt upper environ files else from_yaml rt yaml files path

module _ {H S V B G C : Type 0} (rt : Runtime) (io : AdapterPorts S V B G C)
    (entry_io : EntryPorts S) where
  -- a lazy import: whether there is the module
  abbrev pub imported : FleetCall → (S → Result (Unit {0}) × S) → FleetAct H S Bool
  imported a port = try_except is_import_error (call a (outside port) >> done true) (done false)

  -- the dynamic path
  unfoldable pub bind_dynamic : Dict Value → Option Value → Option String → FleetAct H S (Unit {0})
  bind_dynamic settings none uri = raises binding_error
  bind_dynamic settings (some entry) uri =
      call (request (get_building_map (namespace_of rt (get settings "namespace"))))
        (outside (entry_io.send (get_building_map (namespace_of rt (get settings "namespace")))))
      >>= λ building_map. bind_easy_full_control rt io entry building_map uri

  unfoldable pub bind_fleet : Arguments → Dict Value → Option Value → FleetAct H S (Unit {0})
  bind_fleet args settings entry =
      if is_set (get settings "dynamic_mode")
      then bind_dynamic settings entry (given_uri args.server_uri)
      else bind_from_yaml rt io args.config args.nav_graph (given_uri args.server_uri)

  -- the spin with its `except KeyboardInterrupt` and its `finally`
  unfoldable pub spin_section : FleetAct H S (Unit {0})
  spin_section =
      try_finally (try_except is_interrupt (call spin (outside entry_io.spun)) (done tt)) (
        call request_stop (outside entry_io.stop)
        >> (call join_pump (outside entry_io.join)
            >> call shutdown_executor (outside entry_io.executor_shutdown)))

  -- what follows the binding
  unfoldable pub serve : Bool → FleetAct H S (Unit {0})
  serve use_sim_time =
      when use_sim_time
        (try_except is_exception (call set_sim_time (outside entry_io.sim_time)) (done tt))
      >> (call start_adapter (outside entry_io.start)
          >> (call spawn_pump (outside entry_io.spawn)
              >> (call make_executor (outside entry_io.executor)
                  >> (when entry_io.has_node (call add_node (outside entry_io.node_added))
                      >> spin_section))))

  unfoldable pub after_binding : Arguments → Bool → FleetAct H S ℕ
  after_binding args true = serve args.use_sim_time >> done 0
  after_binding args false = done 7

  -- between `rclpy.init()` and the `finally`
  unfoldable pub ros_section : Arguments → Dict Value → Option Value → FleetAct H S ℕ
  ros_section args settings entry =
      when entry_io.has_init_rclcpp (call init_rclcpp (outside entry_io.rclcpp_init))
      >> (try_except is_binding_error (bind_fleet args settings entry >> done true) (done false)
          >>= after_binding args)

  -- `rclpy.shutdown()`, whose exceptions are logged
  abbrev pub shut_down : FleetAct H S (Unit {0})
  shut_down =
      try_except is_exception (call shutdown_ros (outside entry_io.rclpy_shutdown)) (done tt)

  unfoldable pub with_rclpy : Arguments → Dict Value → Option Value → Bool → FleetAct H S ℕ
  with_rclpy args settings entry false = done 6
  with_rclpy args settings entry true =
      call init_ros (outside entry_io.rclpy_init)
      >> try_finally (ros_section args settings entry) shut_down

  unfoldable pub run_full : Arguments → Dict Value → Option Value → FleetAct H S ℕ
  run_full args settings entry =
      imported import_rclpy entry_io.load_rclpy >>= with_rclpy args settings entry

  abbrev pub closing : FleetCall → (S → S) → FleetAct H S (Unit {0})
  closing a port = call a (outside (λ w. (ok tt, port w)))

  -- the two modes, with the `finally` around them; `dry` is the run of the dry mode
  unfoldable pub run_mode :
      FleetAct H S ℕ → Arguments → Dict Value → Option Value → Bool → FleetAct H S ℕ
  run_mode dry args settings entry dry_run =
      try_finally (if dry_run then dry else run_full args settings entry) (
        closing close_ws entry_io.closed_ws
        >> (closing close_http entry_io.closed_http >> closing close_auth entry_io.closed_auth))

  -- what the discovery gave
  unfoldable pub with_entry :
      FleetAct H S ℕ → Arguments → Dict Value → Bool → Option Value × Option ℕ → FleetAct H S ℕ
  with_entry dry args settings dry_run (entry, some code) =
      closing close_auth entry_io.closed_auth
      >> (closing close_http entry_io.closed_http >> done code)
  with_entry dry args settings dry_run (none, none) = raises runtime_error
  with_entry dry args settings dry_run (some entry, none) =
      pure (build_robot_handles entry) >>= store >> run_mode dry args settings (some entry) dry_run

  unfoldable pub fetch : Dict Value → FleetAct H S (Option Value × Option ℕ)
  fetch settings s =
      let (r, t) =
        call (request (get_discovery (namespace_of rt (get settings "namespace"))))
          (outside (entry_io.send (get_discovery (namespace_of rt (get settings "namespace")))))
          s in
      (fetch_fleet_entry rt r (or_null (get settings "fleet_name")), t)

  unfoldable pub choose_mode : FleetAct H S ℕ → Arguments → Dict Value → Bool → FleetAct H S ℕ
  choose_mode dry args settings dry_run =
      if is_set (get settings "dynamic_mode") || dry_run
      then fetch settings >>= with_entry dry args settings dry_run
      else run_mode dry args settings none dry_run

  -- `main` with settings that were accepted
  unfoldable pub main_configured : FleetAct H S ℕ → Arguments → Dict Value → FleetAct H S ℕ
  main_configured dry args settings = pure (build_clients settings) >>= λ url.
      imported import_rmf_adapter entry_io.load_rmf_adapter >>= λ found.
      choose_mode dry args settings (args.dry_run || not found)

  -- `main` with what loading the settings gave
  unfoldable pub main : FleetAct H S ℕ → Arguments → Result (Dict Value) → FleetAct H S ℕ
  main dry args (ok settings) = main_configured dry args settings
  main dry args (err config_error) = done 1
  main dry args (err e) = raises e
