-- ===== src/Python/Text/Split.antt =====
-- Splitting what was joined.
use Prim.Native.Char.{code}
use Prim.Native.String.{[], ◌∷◌, ◌++◌}
use mathlib.Core.List
use text.Mathlib.TextLemmas.{nil-append, cons-append}
use open_rmf_adapters_quiksy.Base.{
  String, Bool, true, false, ◌≡◌, ◌∙◌, refl, ap, arith, ◌==◌, if◌then◌else◌, All,
}
use open_rmf_adapters_quiksy.Python.Text.{in_first, split_commas, join_commas}

-- A text with no comma in it
abbrev pub has_comma : String → Bool
has_comma [] = false
has_comma (c ∷ s) = if code c == b',' then true else has_comma s

abbrev pub IsWord : String → Type 0
IsWord w = has_comma w ≡ false

split_word : (w : String) → IsWord w → split_commas w ≡ List.◌∷◌ w List.[]
unfolding split_commas in_first
split_word [] h = refl
split_word (c ∷ w) h = ground (arith, split_word w)

split_before_comma :
    (w rest : String)
    → IsWord w
    → split_commas (w ++ ("," ++ rest)) ≡ List.◌∷◌ w (split_commas rest)
unfolding split_commas in_first
split_before_comma [] rest h = rw nil-append (rw cons-append (rw nil-append refl))
split_before_comma (c ∷ w) rest h = rw cons-append (ground (arith, split_before_comma w rest))

-- Words without commas come back from the text that joins them.
pub split_commas-join_commas :
    (w : String) (ws : List.List String)
    → IsWord w
    → All IsWord ws
    → split_commas (join_commas (List.◌∷◌ w ws)) ≡ List.◌∷◌ w ws
unfolding join_commas
split_commas-join_commas w List.[] h k = split_word w h
split_commas-join_commas w (List.◌∷◌ v vs) h (k, ks) =
    split_before_comma w (join_commas (List.◌∷◌ v vs)) h
    ∙ ap (List.◌∷◌ w) (split_commas-join_commas v vs k ks)
