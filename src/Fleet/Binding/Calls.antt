-- ===== src/Fleet/Binding/Calls.antt =====
-- binding.py: it makes no other calls than its own.
use open_rmf_adapters_quiksy.Base.{
  String, Bool, true, false, Option, none, some, List, [], ◌∷◌, ◌≡◌, refl, inl, inr, Bool-cases,
  is_empty,
}
use open_rmf_adapters_quiksy.Base.Dict.{get}
use open_rmf_adapters_quiksy.Base.Exec.{Result}
use open_rmf_adapters_quiksy.Base.Act.{pure, call, ◌>>=◌, ◌>>◌}
use open_rmf_adapters_quiksy.Base.Act.Keeps.{Keeps, bind-Keeps, then-Keeps, calls_of, call-Keeps}
use open_rmf_adapters_quiksy.Python.{
  Value, Items, null, bool, int, float, str, list, dict, object, nil, cons, item, truthy, or_value,
}
use open_rmf_adapters_quiksy.Python as Py
use open_rmf_adapters_quiksy.Python.Runtime.{Runtime}
use open_rmf_adapters_quiksy.Fleet.Robot.{RobotHandle}
use open_rmf_adapters_quiksy.Fleet.Binding.Shapes.{
  build_vehicle_traits, build_battery_system, build_graph, build_consider_request_dict,
  robots_listed,
}
use open_rmf_adapters_quiksy.Fleet.Binding.{
  BindingCall, FleetCall, binding, FleetWorld, AdapterPorts, FleetAct, outside, handle_or_new,
  keep_handle, prepare, needed, needed_configuration, add_fleet, write_uri,
  build_fleet_configuration, prepare_known, bind_from_yaml, prepare_listed, prepare_named,
  prepare_robots, bind_easy_full_control, make_traits, make_battery, deserialize_graph,
  make_configuration, load_configuration, set_server_uri, make_adapter, add_easy_fleet,
  configure_robot, make_callbacks,
}

module _ {H S V B G C : Type 0} (rt : Runtime) (io : AdapterPorts S V B G C)
    (kind : FleetCall → Bool) (others : (b : BindingCall) → kind (binding b) ≡ false) where
  -- No call of the kind is made.
  abbrev pub IsQuiet : {R : Type 0} → FleetAct H S R → Type 0
  IsQuiet m = Keeps (calls_of {W = FleetWorld H S} kind) m

  binding-IsQuiet :
      {R : Type 0} (b : BindingCall) (port : S → Result R × S)
      → IsQuiet (call (binding b) (outside port))
  binding-IsQuiet b port = call-Keeps kind (binding b) (outside port) (others b)

  bind-IsQuiet :
      {R Q : Type 0} (m : FleetAct H S R) (rest : R → FleetAct H S Q)
      → IsQuiet m
      → ((r : R) → IsQuiet (rest r))
      → IsQuiet (m >>= rest)
  bind-IsQuiet m rest h k = bind-Keeps (calls_of {W = FleetWorld H S} kind) m rest h k

  then-IsQuiet :
      {Q : Type 0} (m : FleetAct H S (Unit {0})) (rest : FleetAct H S Q)
      → IsQuiet m
      → IsQuiet rest
      → IsQuiet (m >> rest)
  then-IsQuiet m rest h k = then-Keeps (calls_of {W = FleetWorld H S} kind) m rest h k

  after_call :
      {R Q : Type 0} (b : BindingCall) (port : S → Result R × S) (rest : R → FleetAct H S Q)
      → ((r : R) → IsQuiet (rest r))
      → IsQuiet (call (binding b) (outside port) >>= rest)
  after_call b port rest k =
      bind-IsQuiet (call (binding b) (outside port)) rest (binding-IsQuiet b port) k

  before_rest :
      {Q : Type 0} (b : BindingCall) (port : S → Result (Unit {0}) × S) (rest : FleetAct H S Q)
      → IsQuiet rest
      → IsQuiet (call (binding b) (outside port) >> rest)
  before_rest b port rest k =
      then-IsQuiet (call (binding b) (outside port)) rest (binding-IsQuiet b port) k

  needed-IsQuiet : (made : Bool) → IsQuiet (needed made)
  needed-IsQuiet true s = refl
  needed-IsQuiet false s = refl

  needed_configuration-IsQuiet : (o : Option C) → IsQuiet (needed_configuration o)
  needed_configuration-IsQuiet (some c) s = refl
  needed_configuration-IsQuiet none s = refl

  add_fleet-IsQuiet : (c : C) → IsQuiet (add_fleet rt io c)
  unfolding add_fleet
  add_fleet-IsQuiet c =
      after_call make_adapter (io.adapter_make "fleet_adapter_quiksync") _ (λ made.
        then-IsQuiet (needed made) _ (needed-IsQuiet made)
          (binding-IsQuiet add_easy_fleet (io.easy_fleet c)))

  write_uri-IsQuiet : (c : C) (uri : Option String) → IsQuiet (write_uri rt io c uri)
  unfolding write_uri
  write_uri-IsQuiet c none s = refl
  write_uri-IsQuiet c (some uri) s = elim (Bool-cases (is_empty uri)) [
    | inl nothing ↦ rw nothing refl
    | inr given ↦ rw given (binding-IsQuiet set_server_uri (io.write_server_uri c uri) s)
  ]

  round-IsQuiet :
      (c : C) (name : String) (names : List String) (handle : RobotHandle H)
      → IsQuiet (prepare_known rt io c names)
      → IsQuiet (
          call (binding (configure_robot name)) (outside (io.known_configuration c name))
          >> (call (binding (make_callbacks name)) (outside (io.robot_callbacks name))
              >> (prepare name handle >> prepare_known rt io c names)))
  round-IsQuiet c name names handle rest =
      before_rest (configure_robot name) (io.known_configuration c name) _ (
        before_rest (make_callbacks name) (io.robot_callbacks name)
          (prepare name handle >> prepare_known rt io c names)
          (then-IsQuiet (prepare name handle) (prepare_known rt io c names) (λ s. refl) rest))

  prepare_known-IsQuiet : (c : C) (names : List String) → IsQuiet (prepare_known rt io c names)
  unfolding prepare_known
  prepare_known-IsQuiet c [] s = refl
  prepare_known-IsQuiet c (name ∷ names) s =
      round-IsQuiet c name names (handle_or_new name (get s.world.handles name))
        (prepare_known-IsQuiet c names) (keep_handle name s).1

  pub bind_from_yaml-IsQuiet :
      (config_path nav_graph_path : String) (uri : Option String)
      → IsQuiet (bind_from_yaml rt io config_path nav_graph_path uri)
  unfolding bind_from_yaml
  bind_from_yaml-IsQuiet config_path nav_graph_path uri s =
      elim (Bool-cases (is_empty config_path)) [
        | inl no_path ↦ rw no_path refl
        | inr path ↦ elim (Bool-cases (is_empty nav_graph_path)) [
          | inl no_graph ↦ rw (path, no_graph) refl
          | inr graph ↦ rw (path, graph) (loading s)
        ]
      ]
    where
      loading : IsQuiet (
          call
            (binding load_configuration)
            (outside (io.from_config_files config_path nav_graph_path))
          >>= needed_configuration
          >>= λ c.
              write_uri rt io c uri
              >> (add_fleet rt io c >> prepare_known rt io c (io.known_robots c)))
      loading =
          bind-IsQuiet
            (call (binding load_configuration)
                (outside (io.from_config_files config_path nav_graph_path))
              >>= needed_configuration)
            _
            (after_call load_configuration (io.from_config_files config_path nav_graph_path)
              needed_configuration needed_configuration-IsQuiet)
            (λ c. then-IsQuiet (write_uri rt io c uri) _ (write_uri-IsQuiet c uri) (
              then-IsQuiet (add_fleet rt io c) (prepare_known rt io c (io.known_robots c))
                (add_fleet-IsQuiet c) (prepare_known-IsQuiet c (io.known_robots c))))

  build_fleet_configuration-IsQuiet :
      (entry building_map : Value) → IsQuiet (build_fleet_configuration rt io entry building_map)
  unfolding build_fleet_configuration
  build_fleet_configuration-IsQuiet entry building_map =
      bind-IsQuiet (pure (item entry "fleet_name")) _ (λ s. refl)
        (λ fleet_name.
          bind-IsQuiet (pure (item entry "traits")) _ (λ s. refl)
            (λ traits.
              bind-IsQuiet (pure (build_vehicle_traits rt traits)) _ (λ s. refl)
                (λ v. after_call make_traits (io.vehicle_traits v) _ (λ vehicle.
                  bind-IsQuiet (pure (item entry "battery")) _ (λ s. refl)
                    (λ battery.
                      bind-IsQuiet (pure (build_battery_system rt battery)) _ (λ s. refl)
                        (λ b. after_call make_battery (io.battery_system b.0 b.1) _ (λ system.
                          bind-IsQuiet (pure (item entry "nav_graph_name")) _ (λ s. refl)
                            (λ name.
                              bind-IsQuiet (pure (build_graph rt building_map name)) _ (λ s. refl)
                                (λ g. after_call deserialize_graph (io.deserialize g) _ (λ graph.
                                  bind-IsQuiet (pure (Py.get entry "task_categories" null)) _
                                    (λ s. refl)
                                    (λ given.
                                      bind-IsQuiet
                                        (pure
                                          (build_consider_request_dict (or_value given (list nil))))
                                        _ (λ s. refl)
                                        (λ categories. binding-IsQuiet make_configuration (
                                          io.fleet_configuration fleet_name graph vehicle system
                                            categories)))))))))))))

  prepare_listed-IsQuiet :
      (name : String) (o : Option (RobotHandle H)) → IsQuiet (prepare_listed rt io name o)
  unfolding prepare_listed
  prepare_listed-IsQuiet name none = λ s. refl
  prepare_listed-IsQuiet name (some handle) =
      before_rest (configure_robot name) io.robot_configuration _ (
        before_rest (make_callbacks name) (io.robot_callbacks name) (prepare name handle)
          (λ s. refl))

  prepare_named-IsQuiet : (v : Value) → IsQuiet (prepare_named rt io v)
  unfolding prepare_named
  prepare_named-IsQuiet (str name) s = elim (Bool-cases (is_empty name)) [
    | inl nothing ↦ rw nothing refl
    | inr full ↦ rw full (prepare_listed-IsQuiet name (get s.world.handles name) s)
  ]
  prepare_named-IsQuiet (list vs) s = elim (Bool-cases (truthy (list vs))) [
    | inl full ↦ rw full refl
    | inr nothing ↦ rw nothing refl
  ]
  prepare_named-IsQuiet (dict fs) s = elim (Bool-cases (truthy (dict fs))) [
    | inl full ↦ rw full refl
    | inr nothing ↦ rw nothing refl
  ]
  prepare_named-IsQuiet v s = elim (Bool-cases (truthy v)) [
    | inl full ↦ rw full refl
    | inr nothing ↦ rw nothing refl
  ]

  prepare_robots-IsQuiet : (robots : Items) → IsQuiet (prepare_robots rt io robots)
  unfolding prepare_robots
  prepare_robots-IsQuiet nil = λ s. refl
  prepare_robots-IsQuiet (cons robot robots) =
      then-IsQuiet (pure (Py.get robot "name" null) >>= prepare_named rt io)
        (prepare_robots rt io robots)
        (bind-IsQuiet (pure (Py.get robot "name" null)) (prepare_named rt io) (λ s. refl)
          prepare_named-IsQuiet)
        (prepare_robots-IsQuiet robots)

  pub bind_easy_full_control-IsQuiet :
      (entry building_map : Value) (uri : Option String)
      → IsQuiet (bind_easy_full_control rt io entry building_map uri)
  unfolding bind_easy_full_control
  bind_easy_full_control-IsQuiet entry building_map uri =
      bind-IsQuiet (pure (item entry "fleet_name")) _ (λ s. refl)
        (λ fleet_name.
          bind-IsQuiet (build_fleet_configuration rt io entry building_map) _
            (build_fleet_configuration-IsQuiet entry building_map)
            (λ c. then-IsQuiet (write_uri rt io c uri) _ (write_uri-IsQuiet c uri) (
              then-IsQuiet (add_fleet rt io c) _ (add_fleet-IsQuiet c) (
                bind-IsQuiet (pure (robots_listed entry)) (prepare_robots rt io) (λ s. refl)
                  prepare_robots-IsQuiet))))
