-- ===== src/Fleet/Binding/Shapes/Graphs.antt =====
-- binding.py: which navigation graph is chosen.
use open_rmf_adapters_quiksy.Base.{
  Option, none, some, List, [], ◌∷◌, ◌++◌, ◌≡◌, refl, arith, inl, inr, Bool-cases, if◌then◌else◌,
  str_eq,
}
use open_rmf_adapters_quiksy.Base.Exec.{ok, err, binding_error}
use open_rmf_adapters_quiksy.Python.{
  Value, Items, Fields, null, list, dict, nil, cons, end, field, find, truthy, or_value, iterate,
}
use open_rmf_adapters_quiksy.Python as Py
use open_rmf_adapters_quiksy.Python.Runtime.{Runtime}
use open_rmf_adapters_quiksy.Fleet.Binding.Shapes.{
  graph_among, graphs_of, or_else, graph_in_levels, or_missing, build_graph,
}

-- A building map by its levels, each by its graphs, as values
abbrev pub graph_values : List Fields → Items
graph_values [] = nil
graph_values (g ∷ gs) = cons (dict g) (graph_values gs)

abbrev pub level_values : List (List Fields) → Items
level_values [] = nil
level_values (gs ∷ levels) =
    cons (dict (field "nav_graphs" (list (graph_values gs)) end)) (level_values levels)

abbrev pub map_of : List (List Fields) → Value
map_of levels = dict (field "levels" (list (level_values levels)) end)

abbrev pub name_of : Fields → Value
name_of g = elim (find g "name") [ some name ↦ name | none ↦ null ]

abbrev pub all_graphs : List (List Fields) → List Fields
all_graphs [] = []
all_graphs (gs ∷ levels) = gs ++ all_graphs levels

module _ (rt : Runtime) (name : Value) where
  -- the first graph of that name
  abbrev pub first_named : List Fields → Option Value
  first_named [] = none
  first_named (g ∷ gs) = if rt.equals (name_of g) name then some (dict g) else first_named gs

  get-name_of : (g : Fields) → Py.get (dict g) "name" null ≡ ok (name_of g)
  unfolding Py.get
  get-name_of g = ground arith

  graph_among-first_named :
      (gs : List Fields) → graph_among rt name (graph_values gs) ≡ ok (first_named gs)
  unfolding graph_among
  graph_among-first_named [] = refl
  graph_among-first_named (g ∷ gs) =
      rw (get-name_of g) (elim (Bool-cases (rt.equals (name_of g) name)) [
        | inl same ↦ rw same refl
        | inr other ↦ rw other (graph_among-first_named gs)
      ])

  first_named-append :
      (gs hs : List Fields)
      → or_else rt (first_named gs) (ok (first_named hs)) ≡ ok (first_named (gs ++ hs))
  first_named-append [] hs = refl
  first_named-append (g ∷ gs) hs = elim (Bool-cases (rt.equals (name_of g) name)) [
    | inl same ↦ rw same refl
    | inr other ↦ rw other (first_named-append gs hs)
  ]

  or_value-graphs : (vs : Items) → iterate (or_value (list vs) (list nil)) ≡ ok vs
  unfolding truthy iterate
  or_value-graphs nil = refl
  or_value-graphs (cons v vs) = refl

  graphs_of-graph_values :
      (gs : List Fields)
      → graphs_of rt (dict (field "nav_graphs" (list (graph_values gs)) end)) ≡ ok (graph_values gs)
  unfolding graphs_of Py.get find str_eq
  graphs_of-graph_values gs = or_value-graphs (graph_values gs)

  graph_in_levels-first_named :
      (levels : List (List Fields))
      → graph_in_levels rt name (level_values levels) ≡ ok (first_named (all_graphs levels))
  unfolding graph_in_levels
  graph_in_levels-first_named [] = refl
  graph_in_levels-first_named (gs ∷ levels) = rw (graphs_of-graph_values gs) (
      rw (graph_among-first_named gs)
        (rw (graph_in_levels-first_named levels) (first_named-append gs (all_graphs levels))))

  missing :
      (found : Option Value)
      → or_missing rt found ≡ (elim found [ some graph ↦ ok graph | none ↦ err binding_error ])
  missing (some graph) = refl
  missing none = refl

  -- In a building map that has nothing but its levels, with levels that have nothing but lists of
  -- graphs, the graphs with any fields: the graph for a fleet is the first one of the name that the
  -- discovery gives, in the order of the levels and of their graphs; where there is none, that is a
  -- `BindingError`.
  pub build_graph-first_named :
      (levels : List (List Fields))
      → build_graph rt (map_of levels) name ≡ (elim (first_named (all_graphs levels)) [
        | some graph ↦ ok graph
        | none ↦ err binding_error
      ])
  unfolding build_graph Py.get find str_eq
  build_graph-first_named levels =
      rw (or_value-graphs (level_values levels))
        (rw (graph_in_levels-first_named levels) (missing (first_named (all_graphs levels))))
