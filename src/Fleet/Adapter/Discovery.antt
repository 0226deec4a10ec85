-- ===== src/Fleet/Adapter/Discovery.antt =====
-- adapter.py of the fleet adapter: the fleet's entry of the discovery, and the handles of its robots.
use mathlib.Core.Path.{subst}
use open_rmf_adapters_quiksy.Base.{
  Bool, false, true, ◌⊎◌, inl, inr, refl, ℕ, Option, none, some, [], ◌≡◌, inl, inr, sym, Bool-cases,
  is_empty, if◌then◌else◌,
}
use open_rmf_adapters_quiksy.Base.Dict.{Dict, put}
use open_rmf_adapters_quiksy.Base.Exec.{
  Result, ok, err, ◌>>=◌, type_error, outside_model, bind-Through, ok-inj, err≢ok,
}
use open_rmf_adapters_quiksy.Base.Act.{is_exception}
use open_rmf_adapters_quiksy.Python.{
  Value, Items, Fields, null, str, list, dict, nil, cons, find, truthy, or_value, iterate,
}
use open_rmf_adapters_quiksy.Python as Py
use open_rmf_adapters_quiksy.Python.Runtime.{Runtime}
use open_rmf_adapters_quiksy.Fleet.Robot.{RobotHandle, new_robot}
use open_rmf_adapters_quiksy.Fleet.Binding.Shapes.{robots_listed}
use open_rmf_adapters_quiksy.Fleet.Binding.Listed.{name_at}

module _ (rt : Runtime) where
  abbrev pub fleet_name_of : Fields → Value
  fleet_name_of fs = elim (find fs "fleet_name") [ some name ↦ name | none ↦ null ]

  -- the loop of `find_our_fleet`
  unfoldable pub fleet_among : Value → Items → Option Value
  fleet_among name nil = none
  fleet_among name (cons (dict fs) fleets) =
      let rest = fleet_among name fleets in
      if rt.equals (fleet_name_of fs) name then some (dict fs) else rest
  fleet_among name (cons _ fleets) = fleet_among name fleets

  abbrev pub among_fleets : Value → Value → Option Value
  among_fleets name (list fleets) = fleet_among name fleets
  among_fleets name _ = none

  unfoldable pub find_our_fleet : Value → Value → Result (Option Value)
  find_our_fleet discovery name = Py.get discovery "fleets" null >>= λ fleets.
      ok (among_fleets name (or_value fleets (list nil)))

  -- `available`, which is iterated over for the log
  unfoldable pub available : Value → Result Items
  available discovery =
      Py.get discovery "fleets" null >>= λ fleets. iterate (or_value fleets (list nil))

  abbrev pub entry_or_missing : Value → Option Value → Result (Option Value × Option ℕ)
  entry_or_missing discovery (some entry) = ok (some entry, none)
  entry_or_missing discovery none = available discovery >>= λ fleets. ok (none, some 4)

  -- `_fetch_fleet_entry`, with what the request gave
  unfoldable pub fetch_fleet_entry : Result Value → Value → Result (Option Value × Option ℕ)
  fetch_fleet_entry (err e) name = if is_exception e then ok (none, some 3) else err e
  fetch_fleet_entry (ok discovery) name =
      find_our_fleet discovery name >>= entry_or_missing discovery

  -- What the fetch gives after a discovery in which the entry was found or not
  abbrev pub Looked : Option Value → Option Value × Option ℕ → Type 0
  Looked (some e) found = found ≡ (some e, none)
  Looked none found = found ≡ (none, some 4)

  -- an entry of `fleets` with that name
  abbrev pub has_fleet_name : Value → Value → Bool
  has_fleet_name name (dict fs) =
      rt.equals (elim (find fs "fleet_name") [ some given ↦ given | none ↦ null ]) name
  has_fleet_name name _ = false

  -- the first entry with that name, or none
  abbrev pub IsFirst : Value → Items → Option Value → Type 0
  IsFirst name nil o = o ≡ none
  IsFirst name (cons v vs) o =
      ((has_fleet_name name v ≡ true) × (o ≡ some v))
      ⊎ ((has_fleet_name name v ≡ false) × IsFirst name vs o)

  abbrev pub entries : Value → Items
  entries (list vs) = vs
  entries _ = nil

  abbrev pub OneSide : Result Value → Value → Option Value × Option ℕ → Type 0
  OneSide (err e) name found = (is_exception e ≡ true) × (found ≡ (none, some 3))
  OneSide (ok discovery) name found =
      (fleets : Value) × (Py.get discovery "fleets" null ≡ ok fleets)
      × (o : Option Value) × IsFirst name (entries (or_value fleets (list nil))) o
      × Looked o found

  fleet_among-IsFirst : (name : Value) (vs : Items) → IsFirst name vs (fleet_among name vs)
  unfolding fleet_among
  fleet_among-IsFirst name nil = refl
  fleet_among-IsFirst name (cons (dict fs) vs) = elim (Bool-cases (has_fleet_name name (dict fs))) [
    | inl same ↦ inl (same, rw same refl)
    | inr other ↦ inr (other, rw other (fleet_among-IsFirst name vs))
  ]
  fleet_among-IsFirst name (cons v vs) = inr (refl, fleet_among-IsFirst name vs)

  among_fleets-IsFirst : (name v : Value) → IsFirst name (entries v) (among_fleets name v)
  among_fleets-IsFirst name (list vs) = fleet_among-IsFirst name vs
  among_fleets-IsFirst name v = refl

  entry_or_missing-Looked :
      (discovery : Value) (o : Option Value) {found : Option Value × Option ℕ}
      → entry_or_missing discovery o ≡ ok found
      → Looked o found
  entry_or_missing-Looked discovery (some e) h = sym (ok-inj h)
  entry_or_missing-Looked discovery none h =
      let (fleets, p, q) = bind-Through (available discovery) _ h in sym (ok-inj q)

  -- Where the fetch returns: after a request that raised an `Exception` there is no entry and the code
  -- is 3; after one that gave a discovery, the first of its `fleets` that is a dict with the fleet's name
  -- under "fleet_name" is the entry, without a code, and if there is none, as also where `fleets` is no
  -- list, there is no entry and the code is 4.
  pub fetch_fleet_entry-OneSide :
      (r : Result Value) (name : Value) {found : Option Value × Option ℕ}
      → fetch_fleet_entry r name ≡ ok found
      → OneSide r name found
  unfolding fetch_fleet_entry find_our_fleet
  fetch_fleet_entry-OneSide (err e) name h = elim (Bool-cases (is_exception e)) [
    | inl caught ↦ (caught, sym (ok-inj (rw caught at h)))
    | inr through ↦ absurd (err≢ok (rw through at h))
  ]
  fetch_fleet_entry-OneSide (ok discovery) name h =
      let (o, p, q) = bind-Through (find_our_fleet discovery name) _ h in
      let (fleets, g, found) = bind-Through (Py.get discovery "fleets" null) _ p in
      (
        fleets,
        g,
        o,
        subst (λ x. IsFirst name (entries (or_value fleets (list nil))) x) (ok-inj found)
            (among_fleets-IsFirst name (or_value fleets (list nil))),
        entry_or_missing-Looked discovery o q,
      )

-- `handles[name] = RobotHandle(name)` where there is a name.  The handles of the model have texts for
-- names: where another value is the name, the model stops.
unfoldable pub add_handle :
    {H : Type 0} → Value → Dict (RobotHandle H) → Result (Dict (RobotHandle H))
add_handle (str name) handles =
    if is_empty name then ok handles else ok (put handles name (new_robot name))
add_handle (list vs) handles = if truthy (list vs) then err type_error else ok handles
add_handle (dict fs) handles = if truthy (dict fs) then err type_error else ok handles
add_handle v handles = if truthy v then err outside_model else ok handles

unfoldable pub add_handles :
    {H : Type 0} → Items → Dict (RobotHandle H) → Result (Dict (RobotHandle H))
add_handles nil handles = ok handles
add_handles (cons (dict fs) robots) handles = add_handle (name_at fs) handles >>= add_handles robots
add_handles (cons _ robots) handles = add_handles robots handles

unfoldable pub build_robot_handles : {H : Type 0} → Value → Result (Dict (RobotHandle H))
build_robot_handles entry = robots_listed entry >>= λ robots. add_handles robots []
