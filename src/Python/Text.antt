-- ===== src/Python/Text.antt =====
-- What the code does to texts: `split(",")`, `strip()` and `startswith`, by recursion on the
-- characters.  Which characters are white space is a parameter.
pub mod Strip
pub mod Split
use Prim.Native.Char.{Char, code}
use Prim.Native.String.{[], ◌∷◌, ◌++◌}
use mathlib.Core.List
use open_rmf_adapters_quiksy.Base.{
  String, Bool, true, false, ◌&&◌, ◌||◌, Option, none, some, ◌==◌, if◌then◌else◌,
}

-- `not s`, by the characters
abbrev pub is_nil : String → Bool
is_nil [] = true
is_nil (c ∷ s) = false

module _ (is_space : Char → Bool) where
  unfoldable pub lstrip : String → String
  lstrip [] = []
  lstrip (c ∷ s) = let rest = lstrip s in if is_space c then rest else c ∷ s

  unfoldable pub rstrip : String → String
  rstrip [] = []
  rstrip (c ∷ s) = let rest = rstrip s in if is_nil rest && is_space c then [] else c ∷ rest

  -- `s.strip()`
  abbrev pub strip : String → String
  strip s = rstrip (lstrip s)

-- one more character in front of the first piece
unfoldable pub in_first : Char → List.List String → List.List String
in_first c List.[] = List.◌∷◌ (c ∷ []) List.[]
in_first c (List.◌∷◌ w ws) = List.◌∷◌ (c ∷ w) ws

-- `s.split(",")`
unfoldable pub split_commas : String → List.List String
split_commas [] = List.◌∷◌ [] List.[]
split_commas (c ∷ s) =
    let rest = split_commas s in if code c == b',' then List.◌∷◌ [] rest else in_first c rest

-- `",".join(words)`
unfoldable pub join_commas : List.List String → String
join_commas List.[] = []
join_commas (List.◌∷◌ w List.[]) = w
join_commas (List.◌∷◌ w (List.◌∷◌ v vs)) = w ++ ("," ++ join_commas (List.◌∷◌ v vs))

-- `s[len(p):]` if `s.startswith(p)`
unfoldable pub strip_prefix : String → String → Option String
strip_prefix [] s = some s
strip_prefix (c ∷ p) [] = none
strip_prefix (c ∷ p) (d ∷ s) =
    let rest = strip_prefix p s in if code c == code d then rest else none

abbrev pub is_prefix : Option String → Bool
is_prefix (some rest) = true
is_prefix none = false

-- `p in s`
unfoldable pub is_within : String → String → Bool
is_within p [] = is_nil p
is_within p (c ∷ s) = is_prefix (strip_prefix p (c ∷ s)) || is_within p s
