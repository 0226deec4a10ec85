-- ===== src/Client/TimeConv.antt =====
-- packages/quiksync_client/quiksync_client/time_conv.py
use open_rmf_adapters_quiksy.Base.{ℕ, ◌+◌, ◌*◌, ◌-◌, ◌/◌, ◌%◌, ◌<◌, ◌≡◌, refl, arith}
use open_rmf_adapters_quiksy.Base.Int.{ℤ, pos, negsuc, pos_part, neg_part}
use open_rmf_adapters_quiksy.Base.Exec.{Result, ok, err, type_error}
use open_rmf_adapters_quiksy.Python.{Value, int}

abbrev pub ms_per_sec : ℕ
ms_per_sec = 1_000

abbrev pub ns_per_ms : ℕ
ns_per_ms = 1_000_000

-- builtin_interfaces/Time
pub record Time : Type 0 where
  pub sec : ℤ
  pub nanosec : ℕ

-- Python's `//` and `%` by a positive number round towards minus infinity.
unfoldable pub floor_div : ℤ → ℕ → ℤ
floor_div (pos n) d = pos (n / d)
floor_div (negsuc n) d = negsuc (n / d)

unfoldable pub floor_mod : ℤ → ℕ → ℕ
floor_mod (pos n) d = n % d
floor_mod (negsuc n) d = d - 1 - n % d

unfoldable pub millis_to_time_parts : Value → Result Time
unfolding floor_div floor_mod
millis_to_time_parts (int millis) = ok (record {
  sec = floor_div millis ms_per_sec;
  nanosec = floor_mod millis ms_per_sec * ns_per_ms;
})
millis_to_time_parts _ = err type_error

-- The nanoseconds that a time stands for, as a difference of numbers.
abbrev pub IsSameInstant : Time → ℤ → Type 0
IsSameInstant t millis =
    (pos_part t.sec * 1_000_000_000 + t.nanosec + neg_part millis * ns_per_ms)
    ≡ (neg_part t.sec * 1_000_000_000 + pos_part millis * ns_per_ms)

-- For every whole number of milliseconds, before the epoch too, the parts are the same instant, and
-- the nanoseconds are less than a second.
pub millis_to_time_parts_exact :
    (millis : ℤ)
    → (t : Time) × (millis_to_time_parts (int millis) ≡ ok t)
      × IsSameInstant t millis
      × (t.nanosec < 1_000_000_000)
unfolding millis_to_time_parts
millis_to_time_parts_exact (pos n) = (
  record { sec = pos (n / 1_000); nanosec = n % 1_000 * 1_000_000 },
  refl,
  omega arith,
  omega arith,
)
millis_to_time_parts_exact (negsuc n) = (
  record { sec = negsuc (n / 1_000); nanosec = (1_000 - 1 - n % 1_000) * 1_000_000 },
  refl,
  omega arith,
  omega arith,
)
