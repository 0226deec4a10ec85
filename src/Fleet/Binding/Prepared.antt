-- ===== src/Fleet/Binding/Prepared.antt =====
-- binding.py: which handles a fleet that was bound has.
use open_rmf_adapters_quiksy.Base.{
  String, Bool, true, false, Option, none, some, List, [], ◌∷◌, ◌≡◌, ◌∙◌, refl, sym, ap, arith, inl,
  inr, Bool-cases, is_empty, str_eq, str_eq_iff, str_eq_refl, if◌then◌else◌,
}
use open_rmf_adapters_quiksy.Base.Dict.{get, put, get-put}
use open_rmf_adapters_quiksy.Base.Exec.{ok, err≢ok, ok-inj}
use open_rmf_adapters_quiksy.Base.Act.{Run, call, ◌>>=◌, ◌>>◌}
use open_rmf_adapters_quiksy.Base.Act.Keeps.{Keeps, bind-Keeps, then-Keeps, continue-eq-ok}
use open_rmf_adapters_quiksy.Python.Runtime.{Runtime}
use open_rmf_adapters_quiksy.Config.IdList.{member}
use open_rmf_adapters_quiksy.Fleet.Robot.{RobotHandle, prepare_registration}
use open_rmf_adapters_quiksy.Fleet.Binding.{
  Handles, handles_of, FleetCall, binding, FleetWorld, AdapterPorts, outside, handle_or_new,
  prepare, keep_handle, prepare_known, needed, needed_configuration, write_uri, add_fleet,
  bind_from_yaml, make_adapter, load_configuration, configure_robot, make_callbacks,
}

module _ {H : Type 0} where
  -- the handle of a robot after the names were prepared
  abbrev pub prepared_at : List String → Handles H → String → Option (RobotHandle H)
  prepared_at names handles k =
      if member k names
      then some (prepare_registration (handle_or_new k (get handles k)))
      else get handles k

  -- what one round of the loop does to the handles
  abbrev pub prepared_one : String → Handles H → Handles H
  prepared_one name handles =
      put (put handles name (handle_or_new name (get handles name))) name
        (prepare_registration (handle_or_new name (get handles name)))

  pub prepare_idem :
      (h : RobotHandle H) → prepare_registration (prepare_registration h) ≡ prepare_registration h
  unfolding prepare_registration
  prepare_idem h = refl

  prepared_one-get :
      (name : String) (handles : Handles H) (k : String)
      → get (prepared_one name handles) k ≡ (
          if str_eq name k
          then some (prepare_registration (handle_or_new k (get handles k)))
          else get handles k)
  prepared_one-get name handles k = elim (Bool-cases (str_eq name k)) [
    | inl same ↦ rw ((str_eq_iff name k).0 same) (
        rw
          (get-put (put handles k (handle_or_new k (get handles k))) k k
            (prepare_registration (handle_or_new k (get handles k))))
          (rw (str_eq_refl k) refl))
    | inr other ↦
        rw
          (get-put (put handles name (handle_or_new name (get handles name))) name k
            (prepare_registration (handle_or_new name (get handles name))))
          (rw (get-put handles name k (handle_or_new name (get handles name))) (rw other refl))
  ]

  prepared_one-prepared_at :
      (name : String) (names : List String) (handles : Handles H) (k : String)
      → prepared_at names (prepared_one name handles) k ≡ prepared_at (name ∷ names) handles k
  unfolding member
  prepared_one-prepared_at name names handles k =
      rw (prepared_one-get name handles k) (elim (Bool-cases (str_eq name k)) [
        | inl same ↦ rw same (ground (arith, prepare_idem (handle_or_new k (get handles k))))
        | inr other ↦ rw other refl
      ])

module _ {H S V B G C : Type 0} (rt : Runtime) (io : AdapterPorts S V B G C) where
  round :
      (c : C) (name : String) (names : List String) (s : Run FleetCall (FleetWorld H S))
      {t : Run FleetCall (FleetWorld H S)}
      → prepare_known rt io c (name ∷ names) s ≡ (ok tt, t)
      → (u : Run FleetCall (FleetWorld H S)) × (handles_of u ≡ prepared_one name (handles_of s))
        × (prepare_known rt io c names u ≡ (ok tt, t))
  unfolding prepare_known
  round c name names s h =
      let (u1, s1, p1, h1) =
        continue-eq-ok
          (call (binding (configure_robot name)) (outside (io.known_configuration c name))
            (keep_handle name s).1)
          _ h in
      let (u2, s2, p2, h2) =
        continue-eq-ok (call (binding (make_callbacks name)) (outside (io.robot_callbacks name)) s1)
          _ h1 in
      let same : handles_of s2 ≡ handles_of (keep_handle name s).1 =
        sym (ap (λ x. handles_of x.1) p2) ∙ sym (ap (λ x. handles_of x.1) p1) in
      (
        (prepare name (handle_or_new name (get s.world.handles name)) s2).1,
        ap
            (λ handles.
              put handles name
                (prepare_registration (handle_or_new name (get s.world.handles name))))
            same,
        h2,
      )

  -- The loop over the known robots, when it comes to its end.
  pub prepare_known-prepared_at :
      (c : C) (names : List String) (s : Run FleetCall (FleetWorld H S))
      {t : Run FleetCall (FleetWorld H S)}
      → prepare_known rt io c names s ≡ (ok tt, t)
      → (k : String) → get (handles_of t) k ≡ prepared_at names (handles_of s) k
  unfolding prepare_known member
  prepare_known-prepared_at c [] s h k = ap (λ x. get (handles_of x.1) k) (sym h)
  prepare_known-prepared_at c (name ∷ names) s h k =
      let (u, one, rest) = round c name names s h in
      prepare_known-prepared_at c names u rest k
      ∙ ap (λ handles. prepared_at names handles k) one
      ∙ prepared_one-prepared_at name names (handles_of s) k

  pub write_uri-Keeps :
      (c : C) (uri : Option String) → Keeps (handles_of {H = H} {S = S}) (write_uri rt io c uri)
  unfolding write_uri
  write_uri-Keeps c none s = refl
  write_uri-Keeps c (some uri) s = elim (Bool-cases (is_empty uri)) [
    | inl none_given ↦ rw none_given refl
    | inr given ↦ rw given refl
  ]

  needed-Keeps : (made : Bool) → Keeps (handles_of {H = H} {S = S}) (needed made)
  needed-Keeps true s = refl
  needed-Keeps false s = refl

  pub add_fleet-Keeps : (c : C) → Keeps (handles_of {H = H} {S = S}) (add_fleet rt io c)
  unfolding add_fleet
  add_fleet-Keeps c =
      bind-Keeps (handles_of {H = H} {S = S})
        (call (binding make_adapter) (outside (io.adapter_make "fleet_adapter_quiksync"))) _
        (λ s. refl)
        (λ made.
          then-Keeps (handles_of {H = H} {S = S}) (needed made) _ (needed-Keeps made) (λ s. refl))

  -- what `bind_from_yaml` does with the configuration that was loaded
  loaded :
      (c : C) (uri : Option String) (s : Run FleetCall (FleetWorld H S))
      {t : Run FleetCall (FleetWorld H S)}
      → (write_uri rt io c uri >> (add_fleet rt io c >> prepare_known rt io c (io.known_robots c)))
          s
        ≡ (ok tt, t)
      → (k : String) → get (handles_of t) k ≡ prepared_at (io.known_robots c) (handles_of s) k
  loaded c uri s h k =
      let (u1, s1, p1, h1) = continue-eq-ok (write_uri rt io c uri s) _ h in
      let (u2, s2, p2, h2) = continue-eq-ok (add_fleet rt io c s1) _ h1 in
      let same : handles_of s2 ≡ handles_of s =
        sym (ap (λ x. handles_of x.1) p2)
        ∙ add_fleet-Keeps c s1
        ∙ sym (ap (λ x. handles_of x.1) p1)
        ∙ write_uri-Keeps c uri s in
      prepare_known-prepared_at c (io.known_robots c) s2 h2 k
      ∙ ap (λ handles. prepared_at (io.known_robots c) handles k) same

  needed_configuration-eq-ok :
      (o : Option C) (s : Run FleetCall (FleetWorld H S)) {c : C}
      {t : Run FleetCall (FleetWorld H S)}
      → needed_configuration o s ≡ (ok c, t)
      → (o ≡ some c) × (s ≡ t)
  needed_configuration-eq-ok (some c) s h = (ap some (ok-inj (ap (λ x. x.0) h)), ap (λ x. x.1) h)
  needed_configuration-eq-ok none s h = absurd (err≢ok (ap (λ x. x.0) h))

  -- `bind_from_yaml` once the paths are given
  from_load :
      (config_path nav_graph_path : String) (uri : Option String)
      (s : Run FleetCall (FleetWorld H S)) {t : Run FleetCall (FleetWorld H S)}
      → (call
              (binding load_configuration)
              (outside (io.from_config_files config_path nav_graph_path))
            >>= needed_configuration
            >>= λ c.
                write_uri rt io c uri
                >> (add_fleet rt io c >> prepare_known rt io c (io.known_robots c)))
          s
        ≡ (ok tt, t)
      → (c : C) × ((io.from_config_files config_path nav_graph_path s.world.world).0 ≡ ok (some c))
        × ((k : String) → get (handles_of t) k ≡ prepared_at (io.known_robots c) (handles_of s) k)
  from_load config_path nav_graph_path uri s h =
      let (c, s1, p1, h1) =
        continue-eq-ok
          ((call (binding load_configuration)
                (outside (io.from_config_files config_path nav_graph_path))
              >>= needed_configuration)
            s)
          _ h in
      let (o, s2, p2, h2) =
        continue-eq-ok
          (call (binding load_configuration)
            (outside (io.from_config_files config_path nav_graph_path)) s)
          _ p1 in
      let (given, same) = needed_configuration-eq-ok o s2 h2 in
      let kept : handles_of s1 ≡ handles_of s =
        ap handles_of (sym same) ∙ sym (ap (λ x. handles_of x.1) p2) in
      (
        c,
        ap (λ x. x.0) p2 ∙ ap ok given,
        λ k. loaded c uri s1 h1 k ∙ ap (λ handles. prepared_at (io.known_robots c) handles k) kept,
      )

  -- When a fleet is bound from its files, the configuration was loaded, and the handles are those from
  -- before, but for the robots that the configuration knows: each of these has a handle, the one from
  -- before or a new one, prepared for its registration.
  pub bind_from_yaml-prepared_at :
      (config_path nav_graph_path : String) (uri : Option String)
      (s : Run FleetCall (FleetWorld H S)) {t : Run FleetCall (FleetWorld H S)}
      → bind_from_yaml rt io config_path nav_graph_path uri s ≡ (ok tt, t)
      → (c : C) × ((io.from_config_files config_path nav_graph_path s.world.world).0 ≡ ok (some c))
        × ((k : String) → get (handles_of t) k ≡ prepared_at (io.known_robots c) (handles_of s) k)
  unfolding bind_from_yaml
  bind_from_yaml-prepared_at config_path nav_graph_path uri s h =
      elim (Bool-cases (is_empty config_path)) [
        | inl no_path ↦ absurd (err≢ok (ap (λ x. x.0) (rw no_path at h)))
        | inr path ↦ elim (Bool-cases (is_empty nav_graph_path)) [
          | inl no_graph ↦ absurd (err≢ok (ap (λ x. x.0) (rw (path, no_graph) at h)))
          | inr graph ↦ from_load config_path nav_graph_path uri s (rw (path, graph) at h)
        ]
      ]
