-- ===== src/Python.antt =====
-- The values of Python that the adapters handle: decoded JSON, attributes of ROS messages and of
-- rmf_adapter objects, and the operations on them that the code uses.
pub mod Runtime
pub mod Text
pub mod Sample
use Prim.Native.String.{[], ◌∷◌}
use open_rmf_adapters_quiksy.Base.{
  ℕ, ◌*◌, ◌/◌, ◌^◌, String, Bool, true, false, not, Option, none, some, ◌==◌, str_eq, is_empty,
  if◌then◌else◌,
}
use open_rmf_adapters_quiksy.Base.Int.{ℤ, pos, negsuc, eq_ℤ}
use open_rmf_adapters_quiksy.Base.Exec.{
  Result, ok, err, key_error, type_error, value_error, overflow_error, attribute_error,
}

-- A binary float: `finite m e` is m / 2^e, which every finite one is.
pub data Float : Type 0 where
  finite : ℤ → ℕ → Float
  infinite : Bool → Float
  nan : Float

-- `object` is an object with attributes and no special methods.
mutual
  pub data Value : Type 0 where
    null : Value
    bool : Bool → Value
    int : ℤ → Value
    float : Float → Value
    str : String → Value
    list : Items → Value
    dict : Fields → Value
    object : Fields → Value

  pub data Items : Type 0 where
    nil : Items
    cons : Value → Items → Items

  pub data Fields : Type 0 where
    end : Fields
    field : String → Value → Fields → Fields

-- The value of a key or of an attribute.
unfoldable pub find : Fields → String → Option Value
find end k = none
find (field j v fs) k = if str_eq j k then some v else find fs k

-- `getattr(v, name, default)`; no built-in value has an attribute of the names that the code asks for.
unfoldable pub getattr : Value → String → Value → Value
getattr (object fs) name default = elim (find fs name) [ some v ↦ v | none ↦ default ]
getattr _ name default = default

unfoldable pub hasattr : Value → String → Bool
hasattr (object fs) name = elim (find fs name) [ some v ↦ true | none ↦ false ]
hasattr _ name = false

-- `v[key]` for a text key
unfoldable pub item : Value → String → Result Value
item (dict fs) key = elim (find fs key) [ some v ↦ ok v | none ↦ err key_error ]
item _ key = err type_error

-- `v.get(key, default)`
unfoldable pub get : Value → String → Value → Result Value
get (dict fs) key default = elim (find fs key) [ some v ↦ ok v | none ↦ ok default ]
get _ key default = err attribute_error

-- `bool(v)`
unfoldable pub truthy : Value → Bool
truthy null = false
truthy (bool b) = b
truthy (int z) = not (eq_ℤ z (pos 0))
truthy (float (finite m e)) = not (eq_ℤ m (pos 0))
truthy (float _) = true
truthy (str s) = not (is_empty s)
truthy (list nil) = false
truthy (list (cons v vs)) = true
truthy (dict end) = false
truthy (dict (field k v fs)) = true
truthy (object fs) = true

-- `v or w`
abbrev pub or_value : Value → Value → Value
or_value v w = if truthy v then v else w

abbrev pub is_none : Value → Bool
is_none null = true
is_none _ = false

abbrev pub is_dict : Value → Bool
is_dict (dict fs) = true
is_dict _ = false

-- `v == n` for a number n: `True` is 1 and `2.0` is 2
unfoldable pub eq_number : Value → ℕ → Bool
eq_number (bool true) n = n == 1
eq_number (bool false) n = n == 0
eq_number (int z) n = eq_ℤ z (pos n)
eq_number (float (finite m e)) n = eq_ℤ m (pos (n * 2 ^ e))
eq_number _ n = false

-- `v == s` for a text s
unfoldable pub eq_text : Value → String → Bool
eq_text (str t) s = str_eq t s
eq_text _ s = false

-- The texts of one character that iterating over a text gives.
unfoldable pub characters : String → Items
characters [] = nil
characters (c ∷ s) = cons (str (c ∷ [])) (characters s)

unfoldable pub keys_of : Fields → Items
keys_of end = nil
keys_of (field k v fs) = cons (str k) (keys_of fs)

-- `dict.values()`
unfoldable pub values_of : Fields → Items
values_of end = nil
values_of (field k v fs) = cons v (values_of fs)

-- `for x in v`
unfoldable pub iterate : Value → Result Items
iterate (list vs) = ok vs
iterate (dict fs) = ok (keys_of fs)
iterate (str s) = ok (characters s)
iterate _ = err type_error
