-- ===== src/Fleet/Binding/Listed.antt =====
-- binding.py: which handles a fleet has that was bound from the discovery.
use mathlib.Core.Option
use open_rmf_adapters_quiksy.Base.{
  String, Option, none, some, List, [], ◌∷◌, ◌≡◌, ◌∙◌, refl, sym, ap, arith, inl, inr, Bool-cases,
  is_empty, str_eq, str_eq_iff, if◌then◌else◌,
}
use open_rmf_adapters_quiksy.Base.Dict.{get, put, get-put}
use open_rmf_adapters_quiksy.Base.Exec.{ok, err≢ok}
use open_rmf_adapters_quiksy.Base.Act.{Run, pure, call, ◌>>=◌}
use open_rmf_adapters_quiksy.Base.Act.Keeps.{Keeps, bind-Keeps, continue-eq-ok}
use open_rmf_adapters_quiksy.Python.{
  Value, Items, Fields, null, bool, int, float, str, list, dict, object, nil, cons, find, item,
  truthy, or_value,
}
use open_rmf_adapters_quiksy.Python as Py
use open_rmf_adapters_quiksy.Python.Runtime.{Runtime}
use open_rmf_adapters_quiksy.Config.IdList.{member}
use open_rmf_adapters_quiksy.Fleet.Robot.{RobotHandle, prepare_registration}
use open_rmf_adapters_quiksy.Fleet.Binding.{
  Handles, handles_of, FleetCall, binding, FleetWorld, AdapterPorts, outside, prepare_listed,
  prepare_named, prepare_robots, build_fleet_configuration, bind_easy_full_control, write_uri,
  add_fleet, FleetAct, configure_robot, make_callbacks, make_traits, make_battery,
  deserialize_graph,
}
use open_rmf_adapters_quiksy.Fleet.Binding.Shapes.{
  robots_listed, build_vehicle_traits, build_battery_system, build_graph,
  build_consider_request_dict,
}
use open_rmf_adapters_quiksy.Fleet.Binding.Prepared.{prepare_idem, write_uri-Keeps, add_fleet-Keeps}

-- the names of the robots that are texts
abbrev pub named : Value → List String → List String
named (str name) names = if is_empty name then names else name ∷ names
named _ names = names

abbrev pub name_at : Fields → Value
name_at fs = elim (find fs "name") [ some name ↦ name | none ↦ null ]

abbrev pub names_of_one : Value → List String → List String
names_of_one (dict fs) names = named (name_at fs) names
names_of_one _ names = names

abbrev pub names_of : Items → List String
names_of nil = []
names_of (cons robot robots) = names_of_one robot (names_of robots)

get-name_at : (fs : Fields) → Py.get (dict fs) "name" null ≡ ok (name_at fs)
unfolding Py.get
get-name_at fs = ground arith

module _ {H : Type 0} where
  -- the handle of a robot after the names were prepared: no handle is new
  abbrev pub listed_at : List String → Handles H → String → Option (RobotHandle H)
  listed_at names handles k =
      if member k names then Option.map prepare_registration (get handles k) else get handles k

  abbrev prepared_found : String → Handles H → Option (RobotHandle H) → Handles H
  prepared_found name handles (some handle) = put handles name (prepare_registration handle)
  prepared_found name handles none = handles

  abbrev after_name : Value → Handles H → Handles H
  after_name (str name) handles =
      if is_empty name then handles else prepared_found name handles (get handles name)
  after_name _ handles = handles

  map_idem :
      (o : Option (RobotHandle H))
      → Option.map prepare_registration (Option.map prepare_registration o)
        ≡ Option.map prepare_registration o
  map_idem none = refl
  map_idem (some h) = ap some (prepare_idem h)

  prepared_found-get :
      (name : String) (handles : Handles H) (o : Option (RobotHandle H)) (k : String)
      → get handles name ≡ o
      → get (prepared_found name handles o) k
        ≡ (if str_eq name k then Option.map prepare_registration (get handles k) else get handles k)
  prepared_found-get name handles (some handle) k g = elim (Bool-cases (str_eq name k)) [
    | inl same ↦ rw (get-put handles name k (prepare_registration handle)) (
        rw same (
          ap (Option.map prepare_registration)
            (sym g ∙ ap (get handles) ((str_eq_iff name k).0 same))))
    | inr other ↦ rw (get-put handles name k (prepare_registration handle)) (rw other refl)
  ]
  prepared_found-get name handles none k g = elim (Bool-cases (str_eq name k)) [
    | inl same ↦
        let gone : get handles k ≡ none = rw ((str_eq_iff name k).0 same) at g in
        rw same (rw gone refl)
    | inr other ↦ rw other refl
  ]

  after_name-listed_at :
      (v : Value) (names : List String) (handles : Handles H) (k : String)
      → listed_at names (after_name v handles) k ≡ listed_at (named v names) handles k
  unfolding member
  after_name-listed_at (str name) names handles k = elim (Bool-cases (is_empty name)) [
    | inl nothing ↦ rw nothing refl
    | inr full ↦ rw full (
        rw (prepared_found-get name handles (get handles name) k refl)
          (elim (Bool-cases (str_eq name k)) [
            | inl same ↦ rw same (ground (arith, map_idem (get handles k)))
            | inr other ↦ rw other refl
          ]))
  ]
  after_name-listed_at v names handles k = refl

module _ {H S V B G C : Type 0} (rt : Runtime) (io : AdapterPorts S V B G C) where
  prepare_listed-eq-ok :
      (name : String) (o : Option (RobotHandle H)) (s : Run FleetCall (FleetWorld H S))
      {t : Run FleetCall (FleetWorld H S)}
      → prepare_listed rt io name o s ≡ (ok tt, t)
      → handles_of t ≡ prepared_found name (handles_of s) o
  unfolding prepare_listed
  prepare_listed-eq-ok name none s h = sym (ap (λ x. handles_of x.1) h)
  prepare_listed-eq-ok name (some handle) s h =
      let (u1, s1, p1, h1) =
        continue-eq-ok (call (binding (configure_robot name)) (outside io.robot_configuration) s) _
          h in
      let (u2, s2, p2, h2) =
        continue-eq-ok (call (binding (make_callbacks name)) (outside (io.robot_callbacks name)) s1)
          _ h1 in
      let same : handles_of s2 ≡ handles_of s =
        sym (ap (λ x. handles_of x.1) p2) ∙ sym (ap (λ x. handles_of x.1) p1) in
      sym (ap (λ x. handles_of x.1) h2)
      ∙ ap (λ handles. put handles name (prepare_registration handle)) same

  prepare_named-eq-ok :
      (v : Value) (s : Run FleetCall (FleetWorld H S)) {t : Run FleetCall (FleetWorld H S)}
      → prepare_named rt io v s ≡ (ok tt, t)
      → handles_of t ≡ after_name v (handles_of s)
  unfolding prepare_named
  prepare_named-eq-ok (str name) s h = elim (Bool-cases (is_empty name)) [
    | inl nothing ↦ rw nothing (sym (ap (λ x. handles_of x.1) (rw nothing at h)))
    | inr full ↦ rw full (prepare_listed-eq-ok name (get s.world.handles name) s (rw full at h))
  ]
  prepare_named-eq-ok (list vs) s h = elim (Bool-cases (truthy (list vs))) [
    | inl full ↦ absurd (err≢ok (ap (λ x. x.0) (rw full at h)))
    | inr nothing ↦ sym (ap (λ x. handles_of x.1) (rw nothing at h))
  ]
  prepare_named-eq-ok (dict fs) s h = elim (Bool-cases (truthy (dict fs))) [
    | inl full ↦ absurd (err≢ok (ap (λ x. x.0) (rw full at h)))
    | inr nothing ↦ sym (ap (λ x. handles_of x.1) (rw nothing at h))
  ]
  prepare_named-eq-ok v s h = elim (Bool-cases (truthy v)) [
    | inl full ↦ absurd (err≢ok (ap (λ x. x.0) (rw full at h)))
    | inr nothing ↦ sym (ap (λ x. handles_of x.1) (rw nothing at h))
  ]

  one_robot :
      (robot : Value) (s : Run FleetCall (FleetWorld H S)) {t : Run FleetCall (FleetWorld H S)}
      → (pure (Py.get robot "name" null) >>= prepare_named rt io) s ≡ (ok tt, t)
      → (names : List String) (k : String)
      → listed_at names (handles_of t) k ≡ listed_at (names_of_one robot names) (handles_of s) k
  unfolding Py.get
  one_robot (dict fs) s h names k =
      let named_so : prepare_named rt io (name_at fs) s ≡ (ok tt, _) = rw (get-name_at fs) at h in
      ap (λ handles. listed_at names handles k) (prepare_named-eq-ok (name_at fs) s named_so)
      ∙ after_name-listed_at (name_at fs) names (handles_of s) k
  one_robot robot s h names k = absurd (err≢ok (ap (λ x. x.0) h))

  -- The loop over the robots of the discovery, when it comes to its end.
  pub prepare_robots-listed_at :
      (robots : Items) (s : Run FleetCall (FleetWorld H S)) {t : Run FleetCall (FleetWorld H S)}
      → prepare_robots rt io robots s ≡ (ok tt, t)
      → (k : String) → get (handles_of t) k ≡ listed_at (names_of robots) (handles_of s) k
  unfolding prepare_robots member
  prepare_robots-listed_at nil s h k = ap (λ x. get (handles_of x.1) k) (sym h)
  prepare_robots-listed_at (cons robot robots) s h k =
      let (u, s1, p1, h1) =
        continue-eq-ok ((pure (Py.get robot "name" null) >>= prepare_named rt io) s) _ h in
      prepare_robots-listed_at robots s1 h1 k ∙ one_robot robot s p1 (names_of robots) k

  keeps :
      {R Q : Type 0} (m : FleetAct H S R) (rest : R → FleetAct H S Q)
      → Keeps (handles_of {H = H} {S = S}) m
      → ((r : R) → Keeps (handles_of {H = H} {S = S}) (rest r))
      → Keeps (handles_of {H = H} {S = S}) (m >>= rest)
  keeps m rest h k = bind-Keeps (handles_of {H = H} {S = S}) m rest h k

  build_fleet_configuration-Keeps :
      (entry building_map : Value)
      → Keeps (handles_of {H = H} {S = S}) (build_fleet_configuration rt io entry building_map)
  unfolding build_fleet_configuration
  build_fleet_configuration-Keeps entry building_map =
      keeps (pure (item entry "fleet_name")) _ (λ s. refl)
        (λ fleet_name.
          keeps (pure (item entry "traits")) _ (λ s. refl)
            (λ traits.
              keeps (pure (build_vehicle_traits rt traits)) _ (λ s. refl)
                (λ v.
                  keeps (call (binding make_traits) (outside (io.vehicle_traits v))) _ (λ s. refl)
                    (λ vehicle.
                      keeps (pure (item entry "battery")) _ (λ s. refl)
                        (λ battery.
                          keeps (pure (build_battery_system rt battery)) _ (λ s. refl)
                            (λ b.
                              keeps
                                (call (binding make_battery) (outside (io.battery_system b.0 b.1)))
                                _ (λ s. refl)
                                (λ system.
                                  keeps (pure (item entry "nav_graph_name")) _ (λ s. refl)
                                    (λ name.
                                      keeps (pure (build_graph rt building_map name)) _ (λ s. refl)
                                        (λ g.
                                          keeps
                                            (call (binding deserialize_graph)
                                              (outside (io.deserialize g)))
                                            _ (λ s. refl)
                                            (λ graph.
                                              keeps (pure (Py.get entry "task_categories" null)) _
                                                (λ s. refl)
                                                (λ given.
                                                  keeps
                                                    (pure (
                                                      build_consider_request_dict
                                                        (or_value given (list nil))))
                                                    _ (λ s. refl)
                                                    (λ categories. λ s. refl))))))))))))

  -- When a fleet is bound from the discovery, the handles are those from before, but for the robots
  -- that the fleet's entry lists by a name that is a text and not empty: of each of these, the handle,
  -- if there is one, is prepared for its registration.  No handle is made.
  pub bind_easy_full_control-listed_at :
      (entry building_map : Value) (uri : Option String) (s : Run FleetCall (FleetWorld H S))
      {t : Run FleetCall (FleetWorld H S)}
      → bind_easy_full_control rt io entry building_map uri s ≡ (ok tt, t)
      → (robots : Items) × (robots_listed entry ≡ ok robots)
        × ((k : String) → get (handles_of t) k ≡ listed_at (names_of robots) (handles_of s) k)
  unfolding bind_easy_full_control
  bind_easy_full_control-listed_at entry building_map uri s h =
      let (name, s0, p0, h0) = continue-eq-ok (pure (item entry "fleet_name") s) _ h in
      let (c, s1, p1, h1) =
        continue-eq-ok (build_fleet_configuration rt io entry building_map s0) _ h0 in
      let (u2, s2, p2, h2) = continue-eq-ok (write_uri rt io c uri s1) _ h1 in
      let (u3, s3, p3, h3) = continue-eq-ok (add_fleet rt io c s2) _ h2 in
      let (robots, s4, p4, h4) = continue-eq-ok (pure (robots_listed entry) s3) _ h3 in
      let same : handles_of s4 ≡ handles_of s =
        sym (ap (λ x. handles_of x.1) p4)
        ∙ sym (ap (λ x. handles_of x.1) p3)
        ∙ add_fleet-Keeps rt io c s2
        ∙ sym (ap (λ x. handles_of x.1) p2)
        ∙ write_uri-Keeps rt io c uri s1
        ∙ sym (ap (λ x. handles_of x.1) p1)
        ∙ build_fleet_configuration-Keeps entry building_map s0
        ∙ sym (ap (λ x. handles_of x.1) p0) in
      (
        robots,
        ap (λ x. x.0) p4,
        λ k.
            prepare_robots-listed_at robots s4 h4 k
            ∙ ap (λ handles. listed_at (names_of robots) handles k) same,
      )
