-- ===== src/Config/Site/Accepted.antt =====
-- config.py of the door and the lift adapter: what accepted settings are.
use mathlib.Core.Path.{subst}
use open_rmf_adapters_quiksy.Base.{
  String, true, false, Option, none, some, List, ◌≡◌, ◌∙◌, sym, refl, arith, All, str_eq_iff,
}
use open_rmf_adapters_quiksy.Base.Dict.{Dict, get, put, get-put}
use open_rmf_adapters_quiksy.Base.Exec.{
  ok, ◌>>=◌, config_error, bind-Through, ok-inj, raise_if-eq-ok,
}
use open_rmf_adapters_quiksy.Python.{Value, list}
use open_rmf_adapters_quiksy.Python.Runtime.{Runtime}
use open_rmf_adapters_quiksy.Config.IdList.{member, normalise_id_list}
use open_rmf_adapters_quiksy.Config.IdList.Sound.{IsIdList, normalise_id_list-IsIdList}
use open_rmf_adapters_quiksy.Config.IdList.RoundTrip.{texts}
use open_rmf_adapters_quiksy.Config.Settings.{
  Files, has_unknown, has_missing, resolve_secret, coerce_numbers,
}
use open_rmf_adapters_quiksy.Config.Settings.Keys.{
  IsIn, IsNoText, IsRefined, IsRefined-refl, IsRefined-trans, put-IsRefined, has_missing-IsIn,
  has_unknown-member, coerce_numbers-IsCoerced, kept_numbers, IsCoerced,
}
use open_rmf_adapters_quiksy.Config.Site.{
  Site, required_fields, known_fields, normalise_found, normalise_ids, complete, listing, checks,
  from_dict,
}

module _ (rt : Runtime) (site : Site) where
  -- The settings hold a proper list of identifiers.
  abbrev pub HasIds : Dict Value → Type 0
  HasIds d =
      (ids : List String) × (get d site.ids_field ≡ some (list (texts ids))) × IsIdList rt ids

  -- Every required field is given, no other key than a field is, no number is a text, and the list of
  -- identifiers is a proper one.
  pub record IsAccepted (d : Dict Value) : Type 0 where
    pub required : All (IsIn d) (required_fields site)
    pub known : (k : String) → IsIn d k → member k (known_fields site) ≡ true
    pub numbers : All (IsNoText d) site.numbers
    pub ids : HasIds d

  last_of : (d : Dict Value) → All (IsIn d) (required_fields site) → IsIn d site.ids_field
  last_of d (a, (b, (c, (e, (f, (g, (last, rest))))))) = last

  normalised :
      (d : Dict Value) (ids : List String)
      → IsIn d site.ids_field
      → IsIdList rt ids
      → let e = put d site.ids_field (list (texts ids)) in IsRefined d e × HasIds e
  normalised d ids p h = (
    put-IsRefined d site.ids_field (list (texts ids)) p refl,
    (
      ids,
      ground (
        arith,
        get-put d site.ids_field site.ids_field (list (texts ids)),
        str_eq_iff site.ids_field site.ids_field,
      ),
      h,
    ),
  )

  normalise_found-IsRefined :
      (d : Dict Value) (o : Option Value) {e : Dict Value}
      → get d site.ids_field ≡ o
      → normalise_found rt site d o ≡ ok e
      → IsRefined d e × (IsIn e site.ids_field → HasIds e)
  unfolding normalise_found
  normalise_found-IsRefined d none {e} g h =
      let same : d ≡ e = cc in
      (
        subst (IsRefined d) same (IsRefined-refl d),
        λ there. absurd (ground (arith, g, same, there)),
      )
  normalise_found-IsRefined d (some raw) {e} g h =
      let (ids, read, written) =
        bind-Through (normalise_id_list rt raw)
          (λ ids. ok (put d site.ids_field (list (texts ids)))) h in
      let same : put d site.ids_field (list (texts ids)) ≡ e = cc in
      let (refined, has) =
        normalised d ids (ground (arith, g)) (normalise_id_list-IsIdList rt raw read) in
      (subst (IsRefined d) same refined, λ there. subst HasIds same has)

  accepted :
      (d numbered listed : Dict Value)
      → has_unknown (known_fields site) d ≡ false
      → IsCoerced rt site.numbers d numbered
      → IsRefined numbered listed
      → (IsIn listed site.ids_field → HasIds listed)
      → has_missing (required_fields site) listed ≡ false
      → IsAccepted listed
  accepted d numbered listed unknown coerced refined ids missing =
      let required = has_missing-IsIn (required_fields site) listed missing in
      let all = IsRefined-trans d numbered listed coerced.refined refined in
      record {
        required = required;
        known = λ k there.
            has_unknown-member (known_fields site) d k unknown (sym (all.keys k) ∙ there);
        numbers = kept_numbers site.numbers refined coerced.numbers;
        ids = ids (last_of listed required);
      }

  checked_accepts :
      (d numbered listed : Dict Value) {e : Dict Value}
      → has_unknown (known_fields site) d ≡ false
      → coerce_numbers rt site.numbers d ≡ ok numbered
      → normalise_ids rt site numbered ≡ ok listed
      → complete rt site listed ≡ ok e
      → IsAccepted e
  unfolding normalise_ids complete
  checked_accepts d numbered listed unknown coerced read rest =
      let (missing, same) =
        raise_if-eq-ok (has_missing (required_fields site) listed) config_error (ok listed) rest in
      let (refined, ids) =
        normalise_found-IsRefined numbered (get numbered site.ids_field) refl read in
      subst IsAccepted (ok-inj same) (
        accepted d numbered listed unknown (coerce_numbers-IsCoerced rt site.numbers d coerced)
          refined ids missing)

  -- Whatever was given, accepted settings have every required field, no key that is not a field, no
  -- number that is a text, and a list of identifiers that is not empty and has no empty, repeated or
  -- unstripped entry.
  pub from_dict-IsAccepted :
      (files : Files) (given : Dict Value) {d : Dict Value}
      → from_dict rt site files given ≡ ok d
      → IsAccepted d
  unfolding from_dict checks listing complete
  from_dict-IsAccepted files given {d} h =
      let (d0, secret, h1) = bind-Through (resolve_secret rt files given) (checks rt site) h in
      let (known, h2) =
        raise_if-eq-ok (has_unknown (known_fields site) d0) config_error
          (coerce_numbers rt site.numbers d0 >>= listing rt site) h1 in
      let (numbered, coerced, h3) =
        bind-Through (coerce_numbers rt site.numbers d0) (listing rt site) h2 in
      let (listed, read, h4) =
        bind-Through (normalise_ids rt site numbered) (complete rt site) h3 in
      checked_accepts d0 numbered listed known coerced read h4
