-- ===== src/Fleet/Adapter/Handles.antt =====
-- adapter.py and binding.py of the fleet adapter: the handles that the entry point builds, and what
-- binding makes of them.
use open_rmf_adapters_quiksy.Base.{
  String, Option, none, some, List, [], ◌∷◌, ◌≡◌, ◌∙◌, refl, sym, ap, arith, inl, inr, Bool-cases,
  is_empty, str_eq, str_eq_iff, if◌then◌else◌,
}
use open_rmf_adapters_quiksy.Base.Dict.{get, put, get-put}
use open_rmf_adapters_quiksy.Base.Exec.{ok, bind-Through, ok-inj, err≢ok}
use open_rmf_adapters_quiksy.Base.Act.{Run}
use open_rmf_adapters_quiksy.Python.{Value, Items, str, list, dict, nil, cons, truthy}
use open_rmf_adapters_quiksy.Python.Runtime.{Runtime}
use open_rmf_adapters_quiksy.Config.IdList.{member}
use open_rmf_adapters_quiksy.Fleet.Robot.{RobotHandle, new_robot, prepare_registration}
use open_rmf_adapters_quiksy.Fleet.Binding.{
  FleetCall, FleetWorld, AdapterPorts, Handles, handles_of, bind_easy_full_control,
}
use open_rmf_adapters_quiksy.Fleet.Binding.Shapes.{robots_listed}
use open_rmf_adapters_quiksy.Fleet.Binding.Listed.{
  name_at, named, names_of, listed_at, bind_easy_full_control-listed_at,
}
use open_rmf_adapters_quiksy.Fleet.Adapter.Discovery.{add_handle, add_handles, build_robot_handles}

module _ {H : Type 0} where
  -- the handle of a robot once new handles were made for the names
  abbrev pub handle_at : List String → Handles H → String → Option (RobotHandle H)
  handle_at names handles k = if member k names then some (new_robot k) else get handles k

  put-handle_at :
      (name : String) (names : List String) (handles : Handles H) (k : String)
      → handle_at names (put handles name (new_robot name)) k ≡ handle_at (name ∷ names) handles k
  unfolding member
  put-handle_at name names handles k = elim (Bool-cases (str_eq name k)) [
    | inl same ↦
        rw (get-put handles name k (new_robot name))
          (rw same (rw ((str_eq_iff name k).0 same) (ground arith)))
    | inr other ↦ rw (get-put handles name k (new_robot name)) (rw other refl)
  ]

  add_handle-handle_at :
      (v : Value) (names : List String) (handles : Handles H) {out : Handles H}
      → add_handle v handles ≡ ok out
      → (k : String) → handle_at names out k ≡ handle_at (named v names) handles k
  unfolding add_handle
  add_handle-handle_at (str name) names handles h k = elim (Bool-cases (is_empty name)) [
    | inl nothing ↦ rw nothing (ap (λ out. handle_at names out k) (sym (ok-inj (rw nothing at h))))
    | inr full ↦ rw full (
        ap (λ out. handle_at names out k) (sym (ok-inj (rw full at h)))
        ∙ put-handle_at name names handles k)
  ]
  add_handle-handle_at (list vs) names handles h k = elim (Bool-cases (truthy (list vs))) [
    | inl full ↦ absurd (err≢ok (rw full at h))
    | inr nothing ↦ ap (λ out. handle_at names out k) (sym (ok-inj (rw nothing at h)))
  ]
  add_handle-handle_at (dict fs) names handles h k = elim (Bool-cases (truthy (dict fs))) [
    | inl full ↦ absurd (err≢ok (rw full at h))
    | inr nothing ↦ ap (λ out. handle_at names out k) (sym (ok-inj (rw nothing at h)))
  ]
  add_handle-handle_at v names handles h k = elim (Bool-cases (truthy v)) [
    | inl full ↦ absurd (err≢ok (rw full at h))
    | inr nothing ↦ ap (λ out. handle_at names out k) (sym (ok-inj (rw nothing at h)))
  ]

  add_handles-handle_at :
      (robots : Items) (handles : Handles H) {out : Handles H}
      → add_handles robots handles ≡ ok out
      → (k : String) → get out k ≡ handle_at (names_of robots) handles k
  unfolding add_handles member
  add_handles-handle_at nil handles h k = ap (λ out. get out k) (sym (ok-inj h))
  add_handles-handle_at (cons (dict fs) robots) handles h k =
      let (m, first, rest) =
        bind-Through (add_handle (name_at fs) handles) (add_handles robots) h in
      add_handles-handle_at robots m rest k
      ∙ add_handle-handle_at (name_at fs) (names_of robots) handles first k
  add_handles-handle_at (cons robot robots) handles h k = add_handles-handle_at robots handles h k

  -- Of an entry's robots, those that it lists by a name that is a text and not empty have a new handle
  -- of that name, and there are no other handles.
  pub build_robot_handles-handle_at :
      (entry : Value) {out : Handles H}
      → build_robot_handles entry ≡ ok out
      → (robots : Items) × (robots_listed entry ≡ ok robots)
        × ((k : String) → get out k ≡ handle_at (names_of robots) [] k)
  unfolding build_robot_handles
  build_robot_handles-handle_at entry h =
      let (robots, p, q) = bind-Through (robots_listed entry) _ h in
      (robots, p, add_handles-handle_at robots [] q)

  listed-handle_at :
      (names : List String) (built out : Handles H) (k : String)
      → get built k ≡ handle_at names [] k
      → get out k ≡ listed_at names built k
      → get out k ≡ (if member k names then some (prepare_registration (new_robot k)) else none)
  unfolding get
  listed-handle_at names built out k b h = h ∙ elim (Bool-cases (member k names)) [
    | inl there ↦ rw b (rw there refl)
    | inr gone ↦ rw b (rw gone refl)
  ]

module _ {H S V B G C : Type 0} (rt : Runtime) (io : AdapterPorts S V B G C) where
  -- Of an entry without a robot whose name counts as true and is no text, as the model stops there: once
  -- a fleet is bound from it, with the handles that were built from it, each robot that the entry lists
  -- by a name that is a text and not empty has a new handle that is prepared for its registration, and
  -- no other text has a handle.
  pub discovered_robots-prepared :
      (entry building_map : Value) (uri : Option String) (s : Run FleetCall (FleetWorld H S))
      {t : Run FleetCall (FleetWorld H S)}
      → build_robot_handles entry ≡ ok (handles_of s)
      → bind_easy_full_control rt io entry building_map uri s ≡ (ok tt, t)
      → (robots : Items) × (robots_listed entry ≡ ok robots)
        × ((k : String)
            → get (handles_of t) k ≡ (
                if member k (names_of robots)
                then some (prepare_registration (new_robot k))
                else none))
  discovered_robots-prepared entry building_map uri s {t} built bound =
      let (robots, p, b) = build_robot_handles-handle_at entry built in
      let (again, q, l) = bind_easy_full_control-listed_at rt io entry building_map uri s bound in
      (
        robots,
        p,
        λ k.
            listed-handle_at (names_of robots) (handles_of s) (handles_of t) k (b k)
              (l k ∙ ap (λ vs. listed_at (names_of vs) (handles_of s) k) (ok-inj (sym q ∙ p))),
      )
