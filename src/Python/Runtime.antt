-- ===== src/Python/Runtime.antt =====
-- The conversions of Python's run time.  What depends on its text formats, on rounding or on the
-- special methods of foreign objects is a parameter.
use Prim.Native.Char.{Char}
use open_rmf_adapters_quiksy.Base.{
  ℕ, suc, Bool, ◌/◌, ◌^◌, ◌-◌, ◌==◌, String, true, false, Option, none, some, if◌then◌else◌,
}
use open_rmf_adapters_quiksy.Base.Int.{ℤ, pos, negsuc}
use open_rmf_adapters_quiksy.Base.Exec.{Result, ok, err, type_error, value_error, overflow_error}
use open_rmf_adapters_quiksy.Python.{Value, Float, finite, infinite, nan, bool, int, float, str}

pub record Runtime : Type 0 where
  -- `str(v)` of a value that is no text
  pub repr : Value → String
  -- `int(s)` and `float(s)` of a text; `none` is a `ValueError`
  pub parse_int : String → Option ℤ
  pub parse_float : String → Option Float
  -- the nearest float; `none` is an `OverflowError`
  pub round : ℤ → Option Float
  -- `c.isspace()` of a character, and `s.lower()`
  pub is_space : Char → Bool
  pub lower : String → String
  -- `v == w`
  pub equals : Value → Value → Bool
  -- `x / 100.0`
  pub divide_by_100 : Float → Float

-- -(m), for a number
abbrev pub negate : ℕ → ℤ
negate m = if m == 0 then pos 0 else negsuc (m - 1)

-- `int(x)` drops the fraction.
unfoldable pub truncate : Float → Result ℤ
truncate (finite (pos m) e) = ok (pos (m / 2 ^ e))
truncate (finite (negsuc m) e) = ok (negate (suc m / 2 ^ e))
truncate (infinite _) = err overflow_error
truncate nan = err value_error

module _ (rt : Runtime) where
  -- `str(v)`
  unfoldable pub to_str : Value → String
  to_str (str s) = s
  to_str v = rt.repr v

  -- `int(v)`
  unfoldable pub to_int : Value → Result ℤ
  to_int (bool true) = ok (pos 1)
  to_int (bool false) = ok (pos 0)
  to_int (int z) = ok z
  to_int (float x) = truncate x
  to_int (str s) = elim (rt.parse_int s) [ some z ↦ ok z | none ↦ err value_error ]
  to_int _ = err type_error

  -- `float(v)`
  unfoldable pub to_float : Value → Result Float
  to_float (bool true) = ok (finite (pos 1) 0)
  to_float (bool false) = ok (finite (pos 0) 0)
  to_float (int z) = elim (rt.round z) [ some x ↦ ok x | none ↦ err overflow_error ]
  to_float (float x) = ok x
  to_float (str s) = elim (rt.parse_float s) [ some x ↦ ok x | none ↦ err value_error ]
  to_float _ = err type_error
