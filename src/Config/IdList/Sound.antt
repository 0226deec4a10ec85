-- ===== src/Config/IdList/Sound.antt =====
-- What a list of identifiers is that was accepted.
use mathlib.Core.Path.{subst}
use open_rmf_adapters_quiksy.Base.{
  String, false, List, [], ◌∷◌, ◌≡◌, refl, arith, inl, inr, All, Bool-cases, is_empty,
}
use open_rmf_adapters_quiksy.Base.Exec.{ok}
use open_rmf_adapters_quiksy.Python.{Value, Items, nil, cons, str, list}
use open_rmf_adapters_quiksy.Python.Runtime.{Runtime, to_str}
use open_rmf_adapters_quiksy.Python.Text.{strip, split_commas}
use open_rmf_adapters_quiksy.Python.Text.Strip.{strip_idem}
use open_rmf_adapters_quiksy.Config.IdList.{
  member, is_none_given, has_empty, check_duplicates, checked, stripped_words, stripped_items,
  normalise_id_list,
}

-- No identifier of the list stands in `seen` or twice in the list.
abbrev pub Apart : List String → List String → Type 0
Apart seen [] = Unit
Apart seen (s ∷ ss) = (member s seen ≡ false) × Apart (s ∷ seen) ss

abbrev pub IsStripped : Runtime → String → Type 0
IsStripped rt s = strip rt.is_space s ≡ s

pub record IsIdList (rt : Runtime) (ids : List String) : Type 0 where
  pub some_given : is_none_given ids ≡ false
  pub none_empty : has_empty ids ≡ false
  pub distinct : Apart [] ids
  pub stripped : All (IsStripped rt) ids

check_duplicates-Apart :
    (seen items : List String) {u : Unit {0}}
    → check_duplicates seen items ≡ ok u
    → Apart seen items
unfolding check_duplicates
check_duplicates-Apart seen [] h = tt
check_duplicates-Apart seen (s ∷ ss) h = elim (Bool-cases (member s seen)) [
  | inl twice ↦ absurd (ground (arith, h, twice))
  | inr once ↦ (once, check_duplicates-Apart (s ∷ seen) ss (rw once at h))
]

pub Apart-check_duplicates :
    (seen items : List String) → Apart seen items → check_duplicates seen items ≡ ok tt
unfolding check_duplicates
Apart-check_duplicates seen [] h = refl
Apart-check_duplicates seen (s ∷ ss) (once, h) = rw once (Apart-check_duplicates (s ∷ seen) ss h)

module _ (rt : Runtime) where
  stripped_words-IsStripped : (ws : List String) → All (IsStripped rt) (stripped_words rt ws)
  unfolding stripped_words
  stripped_words-IsStripped [] = tt
  stripped_words-IsStripped (w ∷ ws) = elim (Bool-cases (is_empty (strip rt.is_space w))) [
    | inl nothing ↦ rw nothing (stripped_words-IsStripped ws)
    | inr word ↦ rw word (strip_idem rt.is_space w, stripped_words-IsStripped ws)
  ]

  stripped_items-IsStripped : (vs : Items) → All (IsStripped rt) (stripped_items rt vs)
  unfolding stripped_items
  stripped_items-IsStripped nil = tt
  stripped_items-IsStripped (cons v vs) =
      (strip_idem rt.is_space (to_str rt v), stripped_items-IsStripped vs)

  checked_accepts :
      (items : List String) {ids : List String}
      → checked items ≡ ok ids
      → (is_none_given items ≡ false)
        × (has_empty items ≡ false)
        × (check_duplicates [] items ≡ ok tt)
        × (items ≡ ids)
  unfolding checked
  checked_accepts items h = ground arith

  checked-IsIdList :
      (items : List String) {ids : List String}
      → All (IsStripped rt) items
      → checked items ≡ ok ids
      → IsIdList rt ids
  checked-IsIdList items s h =
      let (given, full, apart, same) = checked_accepts items h in
      subst (IsIdList rt) same (record {
        some_given = given;
        none_empty = full;
        distinct = check_duplicates-Apart [] items apart;
        stripped = s;
      })

  -- Whatever the setting is, an accepted list of identifiers is not empty, has no empty and no
  -- repeated entry, and no entry has white space around it.
  pub normalise_id_list-IsIdList :
      (v : Value) {ids : List String} → normalise_id_list rt v ≡ ok ids → IsIdList rt ids
  unfolding normalise_id_list
  normalise_id_list-IsIdList (str s) h =
      checked-IsIdList (stripped_words rt (split_commas s))
        (stripped_words-IsStripped (split_commas s)) h
  normalise_id_list-IsIdList (list vs) h =
      checked-IsIdList (stripped_items rt vs) (stripped_items-IsStripped vs) h
  normalise_id_list-IsIdList _ h = ground (arith, h)
