-- ===== src/Fleet/Binding/Shapes.antt =====
-- binding.py: what the builders read from the discovery and from the building map.
pub mod Graphs
use open_rmf_adapters_quiksy.Base.{
  String, Bool, true, false, not, ◌||◌, Option, none, some, List, [], ◌∷◌, if◌then◌else◌,
}
use open_rmf_adapters_quiksy.Base.Exec.{
  Result, ok, err, ◌>>=◌, ◌>>◌, raise_if, type_error, attribute_error, binding_error,
}
use open_rmf_adapters_quiksy.Python.{
  Value, Items, Fields, Float, null, str, list, dict, nil, cons, find, item, truthy, or_value,
  iterate, eq_text,
}
use open_rmf_adapters_quiksy.Python as Py
use open_rmf_adapters_quiksy.Python.Runtime.{Runtime, to_float}
use open_rmf_adapters_quiksy.Python.Text.{is_within}

-- `key in v`
unfoldable pub has_item : Items → String → Bool
has_item nil key = false
has_item (cons v vs) key = eq_text v key || has_item vs key

abbrev pub is_given : Option Value → Bool
is_given (some v) = true
is_given none = false

unfoldable pub has_key : Value → String → Result Bool
has_key (dict fs) key = ok (is_given (find fs key))
has_key (list vs) key = ok (has_item vs key)
has_key (str s) key = ok (is_within key s)
has_key _ key = err type_error

-- `missing` is not empty.
unfoldable pub lacks : List String → Value → Result Bool
lacks [] v = ok false
lacks (key ∷ keys) v = do here ← has_key v key; rest ← lacks keys v; ok (not here || rest)

abbrev pub traits_fields : List String
traits_fields =
    "linear_velocity_m_s" ∷ "linear_acceleration_m_s2" ∷ "angular_velocity_rad_s"
    ∷ "angular_acceleration_rad_s2" ∷ "footprint_radius_m" ∷ "vicinity_radius_m" ∷ []

-- The numbers that the constructors of rmf_adapter are called with
pub record VehicleTraits : Type 0 where
  pub linear_velocity : Float
  pub linear_acceleration : Float
  pub angular_velocity : Float
  pub angular_acceleration : Float
  pub footprint : Float
  pub vicinity : Float

module _ (rt : Runtime) where
  -- `float(v[key])`
  unfoldable pub float_at : Value → String → Result Float
  float_at v key = item v key >>= to_float rt

  unfoldable pub read_traits : Value → Result VehicleTraits
  read_traits traits = do
    v ← float_at traits "linear_velocity_m_s"
    a ← float_at traits "linear_acceleration_m_s2"
    w ← float_at traits "angular_velocity_rad_s"
    b ← float_at traits "angular_acceleration_rad_s2"
    f ← float_at traits "footprint_radius_m"
    r ← float_at traits "vicinity_radius_m"
    ok (record {
      linear_velocity = v;
      linear_acceleration = a;
      angular_velocity = w;
      angular_acceleration = b;
      footprint = f;
      vicinity = r;
    })

  unfoldable pub build_vehicle_traits : Value → Result VehicleTraits
  build_vehicle_traits traits =
      lacks traits_fields traits >>= λ missing. raise_if missing binding_error >> read_traits traits

  -- the voltage and the capacity of `build_battery_system`
  unfoldable pub build_battery_system : Value → Result (Float × Float)
  build_battery_system battery = do
    nominal_voltage ← float_at battery "nominal_voltage_v"
    capacity ← float_at battery "capacity_ah"
    ok (nominal_voltage, capacity)

  -- `for graph in nav_graphs: if graph.get("name") == nav_graph_name`
  unfoldable pub graph_among : Value → Items → Result (Option Value)
  graph_among name nil = ok none
  graph_among name (cons graph graphs) =
      let rest = graph_among name graphs in
      Py.get graph "name" null >>= λ found. if rt.equals found name then ok (some graph) else rest

  -- `level.get("nav_graphs") or []`
  unfoldable pub graphs_of : Value → Result Items
  graphs_of level =
      Py.get level "nav_graphs" null >>= λ graphs. iterate (or_value graphs (list nil))

  abbrev pub or_else : Option Value → Result (Option Value) → Result (Option Value)
  or_else (some graph) rest = ok (some graph)
  or_else none rest = rest

  unfoldable pub graph_in_levels : Value → Items → Result (Option Value)
  graph_in_levels name nil = ok none
  graph_in_levels name (cons level levels) =
      let rest = graph_in_levels name levels in
      graphs_of level >>= λ graphs. graph_among name graphs >>= λ found. or_else found rest

  abbrev pub or_missing : Option Value → Result Value
  or_missing (some graph) = ok graph
  or_missing none = err binding_error

  -- the graph that `build_graph` deserializes
  unfoldable pub build_graph : Value → Value → Result Value
  build_graph building_map name = do
    given ← Py.get building_map "levels" null
    levels ← iterate (or_value given (list nil))
    found ← graph_in_levels name levels
    or_missing found

-- the keys of `build_consider_request_dict`, which must be hashable; every one is always accepted
unfoldable pub consider_keys : Items → Result Items
consider_keys nil = ok nil
consider_keys (cons (list vs) more) = err type_error
consider_keys (cons (dict fs) more) = err type_error
consider_keys (cons v more) = consider_keys more >>= λ rest. ok (cons v rest)

unfoldable pub build_consider_request_dict : Value → Result Items
build_consider_request_dict categories = iterate categories >>= consider_keys

-- `fleet_entry.get("robots") or []`, to be iterated
unfoldable pub robots_listed : Value → Result Items
robots_listed entry = Py.get entry "robots" null >>= λ given. iterate (or_value given (list nil))
