-- ===== src/Python/Sample.antt =====
-- A run time for the tests: every text format and every rounding is the simplest one.
use Prim.Native.Char.{code}
use open_rmf_adapters_quiksy.Base.{◌==◌, Bool, false, none, some}
use open_rmf_adapters_quiksy.Python.{Value, str, finite, eq_text}
use open_rmf_adapters_quiksy.Python.Runtime.{Runtime}

abbrev same_text : Value → Value → Bool
same_text v (str s) = eq_text v s
same_text v _ = false

abbrev pub sample_runtime : Runtime
sample_runtime = record {
  repr = λ v. "<value>";
  parse_int = λ s. none;
  parse_float = λ s. none;
  round = λ z. some (finite z 0);
  is_space = λ c. code c == b' ';
  lower = λ s. s;
  equals = same_text;
  divide_by_100 = λ x. x;
}
