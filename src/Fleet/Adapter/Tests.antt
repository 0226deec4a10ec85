-- ===== src/Fleet/Adapter/Tests.antt =====
-- Runs of the entry point of the fleet adapter.
use open_rmf_adapters_quiksy.Base.{
  ◌⊎◌, ℕ, ◌+◌, String, true, false, none, some, List, [], ◌∷◌, ◌≡◌, refl, str_eq, if◌then◌else◌,
}
use open_rmf_adapters_quiksy.Base.Int.{pos}
use open_rmf_adapters_quiksy.Base.Dict.{Dict, get, put}
use open_rmf_adapters_quiksy.Base.Exec.{
  Result, ok, err, keyboard_interrupt, connection_error, config_error, is_ok,
}
use open_rmf_adapters_quiksy.Base.Act.{Run}
use open_rmf_adapters_quiksy.Python.{
  Value, Items, Fields, int, str, list, dict, nil, cons, end, field, find, item, iterate, truthy,
  eq_text,
}
use open_rmf_adapters_quiksy.Python as Py
use open_rmf_adapters_quiksy.Python.Runtime.{to_float}
use open_rmf_adapters_quiksy.Python.Text.{strip_prefix}
use open_rmf_adapters_quiksy.Config.Url.{ws_base_url, ws_address}
use open_rmf_adapters_quiksy.Python.Sample.{sample_runtime}
use open_rmf_adapters_quiksy.Config.IdList.{member}
use open_rmf_adapters_quiksy.Fleet.Robot.{RmfPorts, RobotHandle, new_robot, prepare_registration}
use open_rmf_adapters_quiksy.Fleet.Binding.{
  FleetCall, FleetWorld, AdapterPorts, FleetAct, handles_of, init_ros, shutdown_ros,
  bind_easy_full_control, build_fleet_configuration, write_uri, add_fleet, prepare_robots,
  prepare_named, prepare_listed,
}
use open_rmf_adapters_quiksy.Fleet.Binding.Shapes.{
  robots_listed, build_vehicle_traits, lacks, has_key, read_traits, float_at, build_battery_system,
  build_graph, graph_in_levels, graphs_of, graph_among, build_consider_request_dict, consider_keys,
}
use open_rmf_adapters_quiksy.Fleet.Binding.Listed.{names_of}
use open_rmf_adapters_quiksy.Fleet.Adapter.{
  Arguments, main, EntryPorts, with_rclpy, main_configured, choose_mode, fetch, with_entry,
  build_clients,
}
use open_rmf_adapters_quiksy.Fleet.Adapter.Discovery.{
  fetch_fleet_entry, OneSide, fetch_fleet_entry-OneSide, find_our_fleet, available, fleet_among,
  add_handle, add_handles, build_robot_handles,
}
use open_rmf_adapters_quiksy.Fleet.Adapter.Handles.{discovered_robots-prepared}
use open_rmf_adapters_quiksy.Fleet.Adapter.Ros.{ros_calls, with_rclpy-ros}
use open_rmf_adapters_quiksy.Fleet.Adapter.Dry.{dry_mode}
use open_rmf_adapters_quiksy.Fleet.Adapter.Closing.{closings, Closed, main-Closed}

abbrev counting : AdapterPorts ℕ (Unit {0}) (Unit {0}) (Unit {0}) (List String)
counting = record {
  vehicle_traits = λ v n. (ok tt, n + 1);
  battery_system = λ a b n. (ok tt, n + 1);
  deserialize = λ g n. (ok tt, n + 1);
  fleet_configuration = λ name g v b tasks n. (ok [], n + 1);
  from_config_files = λ a b n. (ok none, n + 1);
  write_server_uri = λ c uri n. (ok tt, n + 1);
  adapter_make = λ name n. (ok true, n + 1);
  easy_fleet = λ c n. (ok tt, n + 1);
  known_robots = λ c. c;
  known_configuration = λ c name n. (ok tt, n + 1);
  robot_configuration = λ n. (ok tt, n + 1);
  robot_callbacks = λ name n. (ok tt, n + 1);
}

abbrev fine : ℕ → Result (Unit {0}) × ℕ
fine n = (ok tt, n + 1)

-- every request fails, and the spin is interrupted
abbrev entry_ports : EntryPorts ℕ
entry_ports = record {
  load_rmf_adapter = fine;
  load_rclpy = fine;
  rclpy_init = fine;
  rclpy_shutdown = fine;
  has_init_rclcpp = true;
  rclcpp_init = fine;
  send = λ q n. (err connection_error, n + 1);
  sim_time = fine;
  start = fine;
  spawn = fine;
  executor = fine;
  has_node = true;
  node_added = fine;
  spun = λ n. (err keyboard_interrupt, n + 1);
  stop = fine;
  join = fine;
  executor_shutdown = fine;
  closed_ws = λ n. n + 1;
  closed_http = λ n. n + 1;
  closed_auth = λ n. n + 1;
}

abbrev arguments : Arguments
arguments = record {
  config = "";
  nav_graph = "";
  dry_run = true;
  server_uri = "";
  use_sim_time = false;
}

abbrev start_with : Dict (RobotHandle (Unit {0})) → Run FleetCall (FleetWorld (Unit {0}) ℕ)
start_with handles = record { world = record { handles = handles; world = 0 }; log = [] }

with_rclpy-ros_example :
    ros_calls sample_runtime counting entry_ports
      (with_rclpy sample_runtime counting entry_ports arguments [] none true (start_with [])).1
    ≡ (if is_ok (fine 0).0 then shutdown_ros ∷ init_ros ∷ [] else init_ros ∷ [])
with_rclpy-ros_example =
    with_rclpy-ros sample_runtime counting entry_ports arguments [] none (start_with [])

abbrev settings : Dict Value
settings = ("base_url", str "https://host") ∷ ("fleet_name", str "bots") ∷ []

abbrev robots : RmfPorts ℕ (Unit {0}) (Unit {0})
robots = record {
  importable = true;
  make_state = λ pose. ok tt;
  add_robot = λ name t n. (ok (some tt), n + 1);
  update = λ h t activity n. (ok tt, n + 1);
}

abbrev dry : FleetAct (Unit {0}) ℕ ℕ
dry = dry_mode sample_runtime robots entry_ports.closed_ws []

abbrev final : Run FleetCall (FleetWorld (Unit {0}) ℕ)
final = (main sample_runtime counting entry_ports dry arguments (ok settings) (start_with [])).1

main_failed :
    main sample_runtime counting entry_ports dry arguments (ok settings) (start_with [])
    ≡ (ok 3, final)
unfolding main main_configured choose_mode fetch fetch_fleet_entry with_entry build_clients
    ws_base_url ws_address strip_prefix get str_eq
main_failed = refl

main-Closed_example :
    ((◌≡◌ {A = Result (Dict Value)} (ok settings) (err config_error))
      × (◌≡◌ {A = ℕ} 3 1)
      × (closings sample_runtime counting entry_ports final ≡ []))
    ⊎ Closed sample_runtime counting entry_ports arguments.dry_run (start_with []) final 3
main-Closed_example =
    main-Closed sample_runtime counting entry_ports robots [] arguments (ok settings)
      (start_with []) main_failed

abbrev discovery : Value
discovery = dict (field "fleets" (list nil) end)

missing : fetch_fleet_entry sample_runtime (ok discovery) (str "bots") ≡ ok (none, some 4)
unfolding fetch_fleet_entry find_our_fleet available fleet_among Py.get find str_eq truthy iterate
missing = refl

fetch_fleet_entry-OneSide_example :
    OneSide sample_runtime (ok discovery) (str "bots") (none, some 4)
fetch_fleet_entry-OneSide_example =
    fetch_fleet_entry-OneSide sample_runtime (ok discovery) (str "bots") missing

abbrev one : Value
one = int (pos 1)

abbrev traits : Value
traits = dict (
    field "linear_velocity_m_s" one (
      field "linear_acceleration_m_s2" one (
        field "angular_velocity_rad_s" one (
          field "angular_acceleration_rad_s2" one
            (field "footprint_radius_m" one (field "vicinity_radius_m" one end))))))

abbrev entry : Value
entry = dict (
    field "fleet_name" (str "bots") (
      field "traits" traits (
        field "battery" (dict (field "nominal_voltage_v" one (field "capacity_ah" one end))) (
          field "nav_graph_name" (str "0")
            (field "robots" (list (cons (dict (field "name" (str "r1") end)) nil)) end)))))

abbrev building_map : Value
building_map = dict (
    field "levels"
      (list (
        cons (dict (field "nav_graphs" (list (cons (dict (field "name" (str "0") end)) nil)) end))
          nil))
      end)

abbrev built : Dict (RobotHandle (Unit {0}))
built = ("r1", new_robot "r1") ∷ []

entry-built : build_robot_handles entry ≡ ok built
unfolding build_robot_handles robots_listed add_handles add_handle Py.get find iterate truthy put
    str_eq
entry-built = refl

abbrev bound_end : Run FleetCall (FleetWorld (Unit {0}) ℕ)
bound_end =
    (bind_easy_full_control sample_runtime counting entry building_map none (start_with built)).1

entry-bound :
    bind_easy_full_control sample_runtime counting entry building_map none (start_with built)
    ≡ (ok tt, bound_end)
unfolding bind_easy_full_control build_fleet_configuration write_uri add_fleet prepare_robots
    prepare_named prepare_listed robots_listed build_vehicle_traits lacks has_key read_traits
    float_at to_float build_battery_system build_graph graph_in_levels graphs_of graph_among
    build_consider_request_dict consider_keys item Py.get find iterate truthy eq_text get put str_eq
entry-bound = refl

discovered_robots-prepared_example :
    (robots : Items) × (robots_listed entry ≡ ok robots)
    × ((k : String)
        → get (handles_of bound_end) k ≡ (
            if member k (names_of robots) then some (prepare_registration (new_robot k)) else none))
discovered_robots-prepared_example =
    discovered_robots-prepared sample_runtime counting entry building_map none (start_with built)
      entry-built entry-bound
