-- ===== src/Config/Settings/Keys.antt =====
-- Which keys the steps of `from_dict` leave, and which settings are texts.
use mathlib.Core.Path.{subst}
use open_rmf_adapters_quiksy.Base.{
  String, Bool, true, false, Option, none, some, List, [], ◌∷◌, ◌≡◌, ◌∙◌, refl, arith, inl, inr,
  All, Bool-cases, str_eq_iff,
}
use open_rmf_adapters_quiksy.Base.Dict.{Dict, get, put, contains, get-put}
use open_rmf_adapters_quiksy.Base.Exec.{ok, bind-Through}
use open_rmf_adapters_quiksy.Python.{Value, Float, float, str}
use open_rmf_adapters_quiksy.Python.Runtime.{Runtime}
use open_rmf_adapters_quiksy.Config.IdList.{member}
use open_rmf_adapters_quiksy.Config.Settings.{
  has_unknown, has_missing, coerce_parsed, coerce_found, coerce_number, coerce_numbers,
}

abbrev pub IsIn : Dict Value → String → Type 0
IsIn d k = contains d k ≡ true

abbrev pub is_text : Option Value → Bool
is_text (some (str s)) = true
is_text _ = false

abbrev pub IsNoText : Dict Value → String → Type 0
IsNoText d k = is_text (get d k) ≡ false

-- The same keys, and no new text among the values.
pub record IsRefined (d e : Dict Value) : Type 0 where
  pub keys : (k : String) → contains e k ≡ contains d k
  pub texts : (k : String) → IsNoText d k → IsNoText e k

pub IsRefined-refl : (d : Dict Value) → IsRefined d d
IsRefined-refl d = record { keys = λ k. refl; texts = λ k h. h }

pub IsRefined-trans : (d e f : Dict Value) → IsRefined d e → IsRefined e f → IsRefined d f
IsRefined-trans d e f p q = record {
  keys = λ k. q.keys k ∙ p.keys k;
  texts = λ k h. q.texts k (p.texts k h);
}

pub kept_numbers :
    {d e : Dict Value} (names : List String)
    → IsRefined d e
    → All (IsNoText d) names
    → All (IsNoText e) names
kept_numbers [] r h = tt
kept_numbers (name ∷ names) r (first, h) = (r.texts name first, kept_numbers names r h)

-- A write to a key that is there, of a value that is no text.
pub put-IsRefined :
    (d : Dict Value) (name : String) (v : Value)
    → IsIn d name
    → is_text (some v) ≡ false
    → IsRefined d (put d name v)
put-IsRefined d name v h no_text = record {
  keys = λ k. ground (arith, get-put d name k v, str_eq_iff name k, h);
  texts = λ k t. ground (arith, get-put d name k v, str_eq_iff name k, t, no_text);
}

pub has_missing-IsIn :
    (names : List String) (d : Dict Value) → has_missing names d ≡ false → All (IsIn d) names
unfolding has_missing
has_missing-IsIn [] d h = tt
has_missing-IsIn (k ∷ ks) d h = elim (Bool-cases (contains d k)) [
  | inl here ↦ (here, has_missing-IsIn ks d (rw here at h))
  | inr gone ↦ absurd (ground (arith, h, gone))
]

pub has_unknown-member :
    (known : List String) (d : Dict Value) (k : String)
    → has_unknown known d ≡ false
    → IsIn d k
    → member k known ≡ true
unfolding has_unknown get
has_unknown-member known [] k h p = ground (arith, p)
has_unknown-member known ((j, v) ∷ d) k h p = elim (Bool-cases (member j known)) [
  | inl here ↦ ground (arith, here, p, str_eq_iff j k, has_unknown-member known d k (rw here at h))
  | inr gone ↦ absurd (ground (arith, h, gone))
]

module _ (rt : Runtime) where
  -- A coerced setting is no text any more.
  pub record IsCoerced (names : List String) (d e : Dict Value) : Type 0 where
    pub refined : IsRefined d e
    pub numbers : All (IsNoText e) names

  coerce_parsed-IsRefined :
      (name : String) (d : Dict Value) (x : Option Float) {e : Dict Value}
      → IsIn d name
      → coerce_parsed rt name d x ≡ ok e
      → IsRefined d e × IsNoText e name
  unfolding coerce_parsed
  coerce_parsed-IsRefined name d (some x) {e} p h =
      let same : put d name (float x) ≡ e = cc in
      let there : get (put d name (float x)) name ≡ some (float x) =
        ground (arith, get-put d name name (float x), str_eq_iff name name) in
      (
        subst (IsRefined d) same (put-IsRefined d name (float x) p refl),
        rw (← same) (rw there refl),
      )
  coerce_parsed-IsRefined name d none p h = absurd (ground (arith, h))

  coerce_found-IsRefined :
      (name : String) (d : Dict Value) (o : Option Value) {e : Dict Value}
      → get d name ≡ o
      → coerce_found rt name d o ≡ ok e
      → IsRefined d e × IsNoText e name
  unfolding coerce_found
  coerce_found-IsRefined name d (some (str raw)) g h =
      coerce_parsed-IsRefined name d (rt.parse_float raw) (ground (arith, g)) h
  coerce_found-IsRefined name d o {e} g h =
      let same : d ≡ e = cc in
      (subst (IsRefined d) same (IsRefined-refl d), ground (arith, g, same))

  -- Coercing keeps the keys, and leaves none of the numbers a text.
  pub coerce_numbers-IsCoerced :
      (names : List String) (d : Dict Value) {e : Dict Value}
      → coerce_numbers rt names d ≡ ok e
      → IsCoerced names d e
  unfolding coerce_numbers coerce_number
  coerce_numbers-IsCoerced [] d {e} h =
      let same : d ≡ e = cc in
      record { refined = subst (IsRefined d) same (IsRefined-refl d); numbers = tt }
  coerce_numbers-IsCoerced (name ∷ names) d {e} h =
      let (m, first, rest) = bind-Through (coerce_number rt name d) (coerce_numbers rt names) h in
      let (a, no_text) = coerce_found-IsRefined name d (get d name) refl first in
      let b = coerce_numbers-IsCoerced names m rest in
      record {
        refined = IsRefined-trans d m e a b.refined;
        numbers = (b.refined.texts name no_text, b.numbers);
      }
