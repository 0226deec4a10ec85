-- ===== src/Config/Fleet/Document.antt =====
-- config.py of the fleet adapter: the mode that settings from a document or from the environment
-- choose.
use open_rmf_adapters_quiksy.Base.{
  String, Bool, [], ◌∷◌, ◌||◌, true, false, not, ◌&&◌, Option, none, some, ◌≡◌, ◌∙◌, ap, sym, refl,
  arith, str_eq, str_eq_iff,
}
use open_rmf_adapters_quiksy.Base.Dict.{Dict, get, get-put}
use open_rmf_adapters_quiksy.Base.Exec.{ok, config_error, bind-Through, ok-inj, raise_if-eq-ok}
use open_rmf_adapters_quiksy.Python.{Value, bool, str, truthy}
use open_rmf_adapters_quiksy.Python.Text.{strip}
use open_rmf_adapters_quiksy.Python.Runtime.{Runtime}
use open_rmf_adapters_quiksy.Config.IdList.{member}
use open_rmf_adapters_quiksy.Config.Settings.{
  Files, has_unknown, has_missing, resolve_secret, coerce_numbers,
}
use open_rmf_adapters_quiksy.Config.Settings.Kept.{resolve_secret-get, coerce_numbers-get}
use open_rmf_adapters_quiksy.Config.Fleet.{
  required_fields, number_fields, known_fields, is_on, coerce_mode, complete, checks, from_dict,
  default_dynamic, from_nested, is_on_setting, is_absent, is_mismatch,
}

module _ (rt : Runtime) where
  -- the mode that a setting means
  abbrev pub mode_of : Option Value → Option Value
  mode_of (some (str s)) = some (bool (is_on rt s))
  mode_of o = o

  coerce_mode-mode_of :
      (d : Dict Value) (o : Option Value)
      → get d "dynamic_mode" ≡ o
      → get (coerce_mode rt d o) "dynamic_mode" ≡ mode_of o
  unfolding coerce_mode
  coerce_mode-mode_of d (some (str s)) g = ground (
    arith,
    get-put d "dynamic_mode" "dynamic_mode" (bool (is_on rt s)),
    str_eq_iff "dynamic_mode" "dynamic_mode",
  )
  coerce_mode-mode_of d o g = g

  -- The mode of accepted settings is the one given: a text stands for true where it is 1, true, yes or
  -- on, without white space and upper case, and for false where it is another; what is no text stays.
  pub from_dict-mode_of :
      (files : Files) (given : Dict Value) {d : Dict Value}
      → from_dict rt files given ≡ ok d
      → get d "dynamic_mode" ≡ mode_of (get given "dynamic_mode")
  unfolding from_dict checks complete member str_eq
  from_dict-mode_of files given {d} h =
      let (d0, secret, h1) = bind-Through (resolve_secret rt files given) (checks rt) h in
      let (known, h2) = raise_if-eq-ok (has_unknown known_fields d0) config_error _ h1 in
      let (numbered, coerced, h3) = bind-Through (coerce_numbers rt number_fields d0) _ h2 in
      let (complete, same) =
        raise_if-eq-ok
          (has_missing required_fields (coerce_mode rt numbered (get numbered "dynamic_mode")))
          config_error _ h3 in
      ap (λ d. get d "dynamic_mode") (sym (ok-inj same))
      ∙ coerce_mode-mode_of numbered (get numbered "dynamic_mode") refl
      ∙ ap mode_of (
          coerce_numbers-get rt "dynamic_mode" number_fields d0 refl coerced
          ∙ resolve_secret-get rt "dynamic_mode" files given refl secret)

  default_dynamic-get :
      (d : Dict Value)
      → get d "dynamic_mode" ≡ none
      → get (default_dynamic rt d) "dynamic_mode" ≡ some (bool true)
  unfolding default_dynamic
  default_dynamic-get d h = ground (
    arith,
    h,
    get-put d "dynamic_mode" "dynamic_mode" (bool true),
    str_eq_iff "dynamic_mode" "dynamic_mode",
  )

  -- Accepted settings of a flat document, or of the environment, that do not give the mode are
  -- dynamic.
  pub default_dynamic-from_dict :
      (files : Files) (given : Dict Value) {d : Dict Value}
      → get given "dynamic_mode" ≡ none
      → from_dict rt files (default_dynamic rt given) ≡ ok d
      → get d "dynamic_mode" ≡ some (bool true)
  default_dynamic-from_dict files given h r =
      from_dict-mode_of files (default_dynamic rt given) r
      ∙ ap mode_of (default_dynamic-get given h)

  -- An accepted document with a `quiksync:` block names the same fleet in both blocks, if it names it
  -- by texts, and has an `rmf_fleet:` block or a mode setting that counts as true; its settings are
  -- those of the block.
  pub from_nested-accepted :
      (files : Files) (block : Dict Value) (rmf_fleet : Option Value) {d : Dict Value}
      → from_nested rt files block rmf_fleet ≡ ok d
      → ((is_absent rt rmf_fleet ≡ true) → is_on_setting rt (get block "dynamic_mode") ≡ true)
        × (is_mismatch rt rmf_fleet block ≡ false)
        × (from_dict rt files block ≡ ok d)
  unfolding from_nested
  from_nested-accepted files block rmf_fleet h =
      let (mode, h1) =
        raise_if-eq-ok (not (is_on_setting rt (get block "dynamic_mode")) && is_absent rt rmf_fleet)
          config_error _ h in
      let (names, h2) = raise_if-eq-ok (is_mismatch rt rmf_fleet block) config_error _ h1 in
      (λ absent. ground (arith, mode, absent), names, h2)

  abbrev pub one_of_four : String → Bool
  one_of_four word = str_eq "1" word || str_eq "true" word || str_eq "yes" word || str_eq "on" word

  is_on-one_of_four :
      (word : String) → member word ("1" ∷ "true" ∷ "yes" ∷ "on" ∷ []) ≡ one_of_four word
  unfolding member
  is_on-one_of_four word = ground arith

  -- A document without an `rmf_fleet:` block whose mode is a text that is not empty passes the check
  -- for that block, and its settings, when they are accepted, are dynamic exactly if the text, without
  -- the white space around it and in lower case, is one of 1, true, yes and on.
  pub from_nested-text_mode :
      (files : Files) (block : Dict Value) (s : String) {d : Dict Value}
      → get block "dynamic_mode" ≡ some (str s)
      → truthy (str s) ≡ true
      → from_dict rt files block ≡ ok d
      → (from_nested rt files block none ≡ ok d)
        × (get d "dynamic_mode" ≡ some (bool (one_of_four (rt.lower (strip rt.is_space s)))))
  unfolding from_nested is_on member
  from_nested-text_mode files block s given truthy h = (
    rw given (rw truthy h),
    from_dict-mode_of files block h
        ∙ ap mode_of given
        ∙ ap (λ b. some (bool b)) (is_on-one_of_four (rt.lower (strip rt.is_space s))),
  )
