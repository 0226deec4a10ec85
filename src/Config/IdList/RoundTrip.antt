-- ===== src/Config/IdList/RoundTrip.antt =====
-- A proper list of identifiers is read back, from a list and from a text that joins it by commas.
use open_rmf_adapters_quiksy.Base.{String, false, List, [], ◌∷◌, ◌≡◌, refl, arith, All}
use open_rmf_adapters_quiksy.Base.Exec.{ok}
use open_rmf_adapters_quiksy.Python.{Items, nil, cons, str, list}
use open_rmf_adapters_quiksy.Python.Runtime.{Runtime, to_str}
use open_rmf_adapters_quiksy.Python.Text.{join_commas}
use open_rmf_adapters_quiksy.Python.Text.Split.{IsWord, split_commas-join_commas}
use open_rmf_adapters_quiksy.Config.IdList.{
  has_empty, checked, stripped_words, stripped_items, normalise_id_list,
}
use open_rmf_adapters_quiksy.Config.IdList.Sound.{IsStripped, IsIdList, Apart-check_duplicates}

-- the list of texts, as a value
abbrev pub texts : List String → Items
texts [] = nil
texts (s ∷ ss) = cons (str s) (texts ss)

module _ (rt : Runtime) where
  stripped_items-texts :
      (ids : List String) → All (IsStripped rt) ids → stripped_items rt (texts ids) ≡ ids
  unfolding stripped_items to_str
  stripped_items-texts [] h = refl
  stripped_items-texts (s ∷ ss) (same, h) = cc (same, stripped_items-texts ss h)

  stripped_words_same :
      (ids : List String)
      → All (IsStripped rt) ids
      → has_empty ids ≡ false
      → stripped_words rt ids ≡ ids
  unfolding stripped_words has_empty
  stripped_words_same [] h full = refl
  stripped_words_same (s ∷ ss) (same, h) full =
      rw same (ground (arith, full, stripped_words_same ss h))

  checked_same : (ids : List String) → IsIdList rt ids → checked ids ≡ ok ids
  unfolding checked
  checked_same ids h =
      ground (arith, h.some_given, h.none_empty, Apart-check_duplicates [] ids h.distinct)

  -- A list of distinct identifiers with no white space around them is read as it is.
  pub normalise_id_list-texts :
      (ids : List String) → IsIdList rt ids → normalise_id_list rt (list (texts ids)) ≡ ok ids
  unfolding normalise_id_list
  normalise_id_list-texts ids h = rw (stripped_items-texts ids h.stripped) (checked_same ids h)

  -- A non-empty list of identifiers that are not empty, are distinct, have no white space around them
  -- and no comma in them is read back from the text that joins them by commas, as an environment
  -- variable gives it.
  pub normalise_id_list-join_commas :
      (id : String) (ids : List String)
      → IsIdList rt (id ∷ ids)
      → All IsWord (id ∷ ids)
      → normalise_id_list rt (str (join_commas (id ∷ ids))) ≡ ok (id ∷ ids)
  unfolding normalise_id_list
  normalise_id_list-join_commas id ids h (w, ws) =
      rw (split_commas-join_commas id ids w ws)
        (rw (stripped_words_same (id ∷ ids) h.stripped h.none_empty) (checked_same (id ∷ ids) h))
