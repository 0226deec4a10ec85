-- ===== src/Fleet/Binding/Tests.antt =====
-- Runs of the binding.
use open_rmf_adapters_quiksy.Base.{
  ℕ, ◌+◌, String, true, none, some, List, [], ◌∷◌, ◌≡◌, refl, str_eq,
}
use open_rmf_adapters_quiksy.Base.Dict.{get, put}
use open_rmf_adapters_quiksy.Base.Exec.{ok}
use open_rmf_adapters_quiksy.Base.Act.{Run}
use open_rmf_adapters_quiksy.Python.{Fields, str, end, field}
use open_rmf_adapters_quiksy.Python.Sample.{sample_runtime}
use open_rmf_adapters_quiksy.Fleet.Binding.{
  FleetCall, FleetWorld, AdapterPorts, handles_of, bind_from_yaml, write_uri, add_fleet,
  prepare_known,
}
use open_rmf_adapters_quiksy.Fleet.Binding.Shapes.{build_graph, or_missing}
use open_rmf_adapters_quiksy.Fleet.Binding.Shapes.Graphs.{
  map_of, all_graphs, first_named, build_graph-first_named,
}
use open_rmf_adapters_quiksy.Fleet.Binding.Prepared.{prepared_at, bind_from_yaml-prepared_at}

-- ports that count the calls; the configuration is the list of the known robots
abbrev counting : AdapterPorts ℕ (Unit {0}) (Unit {0}) (Unit {0}) (List String)
counting = record {
  vehicle_traits = λ v n. (ok tt, n + 1);
  battery_system = λ a b n. (ok tt, n + 1);
  deserialize = λ g n. (ok tt, n + 1);
  fleet_configuration = λ name g v b tasks n. (ok [], n + 1);
  from_config_files = λ a b n. (ok (some ("r1" ∷ "r2" ∷ [])), n + 1);
  write_server_uri = λ c uri n. (ok tt, n + 1);
  adapter_make = λ name n. (ok true, n + 1);
  easy_fleet = λ c n. (ok tt, n + 1);
  known_robots = λ c. c;
  known_configuration = λ c name n. (ok tt, n + 1);
  robot_configuration = λ n. (ok tt, n + 1);
  robot_callbacks = λ name n. (ok tt, n + 1);
}

abbrev at_start : Run FleetCall (FleetWorld (Unit {0}) ℕ)
at_start = record { world = record { handles = []; world = 0 }; log = [] }

abbrev final : Run FleetCall (FleetWorld (Unit {0}) ℕ)
final = (bind_from_yaml sample_runtime counting "fleet.yaml" "graph.yaml" none at_start).1

bound :
    bind_from_yaml sample_runtime counting "fleet.yaml" "graph.yaml" none at_start ≡ (ok tt, final)
unfolding bind_from_yaml write_uri add_fleet prepare_known get put str_eq
bound = refl

bind_from_yaml-prepared_at_example :
    (c : List String) × (ok (some ("r1" ∷ "r2" ∷ [])) ≡ ok (some c))
    × ((k : String) → get (handles_of final) k ≡ prepared_at c [] k)
bind_from_yaml-prepared_at_example =
    bind_from_yaml-prepared_at sample_runtime counting "fleet.yaml" "graph.yaml" none at_start bound

-- a graph of another name in front
abbrev levels : List (List Fields)
levels = (field "name" (str "0") end ∷ []) ∷ (field "name" (str "1") end ∷ []) ∷ []

build_graph-first_named_example :
    build_graph sample_runtime (map_of levels) (str "1")
    ≡ or_missing sample_runtime (first_named sample_runtime (str "1") (all_graphs levels))
build_graph-first_named_example = build_graph-first_named sample_runtime (str "1") levels
