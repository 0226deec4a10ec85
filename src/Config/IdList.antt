-- ===== src/Config/IdList.antt =====
-- `_normalise_id_list` of packages/door_adapter_quiksync/door_adapter_quiksync/config.py and of
-- packages/lift_adapter_quiksync/lift_adapter_quiksync/config.py, which are the same.
pub mod Sound
pub mod RoundTrip
mod Tests
use open_rmf_adapters_quiksy.Base.{
  String, Bool, true, false, ◌||◌, List, [], ◌∷◌, ◌++◌, is_empty, str_eq, if◌then◌else◌,
}
use open_rmf_adapters_quiksy.Base.Exec.{Result, ok, err, ◌>>=◌, ◌>>◌, raise_if, config_error}
use open_rmf_adapters_quiksy.Python.{Value, Items, nil, cons, str, list}
use open_rmf_adapters_quiksy.Python.Runtime.{Runtime, to_str}
use open_rmf_adapters_quiksy.Python.Text.{strip, split_commas}

-- `s in seen`
unfoldable pub member : String → List String → Bool
member s [] = false
member s (t ∷ ts) = str_eq t s || member s ts

-- `not items`, and `any(not s for s in items)`
abbrev pub is_none_given : List String → Bool
is_none_given [] = true
is_none_given (s ∷ ss) = false

unfoldable pub has_empty : List String → Bool
has_empty [] = false
has_empty (s ∷ ss) = is_empty s || has_empty ss

-- the loop over `seen`
unfoldable pub check_duplicates : List String → List String → Result (Unit {0})
check_duplicates seen [] = ok tt
check_duplicates seen (s ∷ ss) =
    let rest = check_duplicates (s ∷ seen) ss in if member s seen then err config_error else rest

-- `tuple(items)`, after the three checks
unfoldable pub checked : List String → Result (List String)
checked items = do
  raise_if (is_none_given items) config_error
  raise_if (has_empty items) config_error
  check_duplicates [] items
  ok items

module _ (rt : Runtime) where
  -- `[s.strip() for s in words if s.strip()]`
  unfoldable pub stripped_words : List String → List String
  stripped_words [] = []
  stripped_words (w ∷ ws) =
      let rest = stripped_words ws in
      if is_empty (strip rt.is_space w) then rest else strip rt.is_space w ∷ rest

  -- `[str(s).strip() for s in raw]`
  unfoldable pub stripped_items : Items → List String
  stripped_items nil = []
  stripped_items (cons v vs) = strip rt.is_space (to_str rt v) ∷ stripped_items vs

  -- A YAML document gives lists and no tuples.
  unfoldable pub normalise_id_list : Value → Result (List String)
  normalise_id_list (str s) = checked (stripped_words (split_commas s))
  normalise_id_list (list vs) = checked (stripped_items vs)
  normalise_id_list _ = err config_error
