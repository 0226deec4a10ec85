-- ===== src/Python/Text/Strip.antt =====
-- Stripping white space, and cutting a prefix off.
use Prim.Native.Char.{Char, code}
use Prim.Native.String.{[], ◌∷◌, ◌++◌}
use text.Mathlib.TextEquality.{Char-path}
use text.Mathlib.TextLemmas.{nil-append, cons-append, cons≢nil}
use open_rmf_adapters_quiksy.Base.{
  ℕ, suc, ◌≤◌, String, Bool, ◌&&◌, some, ◌≡◌, ◌∙◌, refl, ap, arith, inl, inr, Bool-cases, ◌==◌,
  is_empty, str_eq_refl, str_eq_ne, ◌≢◌,
}
use open_rmf_adapters_quiksy.Python.Text.{lstrip, rstrip, strip, strip_prefix, is_nil}

pub is_empty-is_nil : (s : String) → is_empty s ≡ is_nil s
is_empty-is_nil [] = str_eq_refl ""
is_empty-is_nil (c ∷ s) = str_eq_ne (c ∷ s) "" cons≢nil

abbrev size : String → ℕ
size [] = 0
size (c ∷ s) = suc (size s)

module _ (is_space : Char → Bool) where
  rstrip_idem : (s : String) → rstrip is_space (rstrip is_space s) ≡ rstrip is_space s
  unfolding rstrip
  rstrip_idem [] = refl
  rstrip_idem (c ∷ s) = elim (Bool-cases (is_nil (rstrip is_space s) && is_space c)) [
    | inl gone ↦ rw gone refl
    | inr kept ↦ rw kept (rw (rstrip_idem s) (rw kept refl))
  ]

  size-lstrip : (s : String) → size (lstrip is_space s) ≤ size s
  unfolding lstrip
  size-lstrip [] = omega arith
  size-lstrip (c ∷ s) = ground (arith, size-lstrip s)

  lstrip-shorter : (c : Char) (s : String) → lstrip is_space s ≢ c ∷ s
  lstrip-shorter c s e = omega (arith, size-lstrip s, ap size e)

  first_stays :
      (c : Char) (s t : String) → lstrip is_space (c ∷ s) ≡ c ∷ s → lstrip is_space (c ∷ t) ≡ c ∷ t
  unfolding lstrip
  first_stays c s t h = ground (arith, lstrip-shorter c s)

  -- A text with no white space in front keeps that when it is stripped behind.
  lstrip-rstrip :
      (s : String) → lstrip is_space s ≡ s → lstrip is_space (rstrip is_space s) ≡ rstrip is_space s
  unfolding lstrip rstrip
  lstrip-rstrip [] h = refl
  lstrip-rstrip (c ∷ s) h = elim (Bool-cases (is_nil (rstrip is_space s) && is_space c)) [
    | inl gone ↦ rw gone refl
    | inr kept ↦ rw kept (first_stays c s (rstrip is_space s) h)
  ]

  lstrip_idem : (s : String) → lstrip is_space (lstrip is_space s) ≡ lstrip is_space s
  unfolding lstrip
  lstrip_idem [] = refl
  lstrip_idem (c ∷ s) = ground (arith, lstrip_idem s)

  -- What was stripped is stripped.
  pub strip_idem : (s : String) → strip is_space (strip is_space s) ≡ strip is_space s
  strip_idem s =
      ap (rstrip is_space) (lstrip-rstrip (lstrip is_space s) (lstrip_idem s))
      ∙ rstrip_idem (lstrip is_space s)

pub strip_prefix_sound : (p s : String) {r : String} → strip_prefix p s ≡ some r → s ≡ p ++ r
unfolding strip_prefix
strip_prefix_sound [] s h = ground (arith, h, nil-append s)
strip_prefix_sound (c ∷ p) [] h = ground (arith, h)
strip_prefix_sound (c ∷ p) (d ∷ s) {r} h = elim (Bool-cases (code c == code d)) [
  | inl same ↦
      (let rest : strip_prefix p s ≡ some r = rw same at h in
        rw cons-append (cc (strip_prefix_sound p s rest, Char-path c d (ground (arith, same)))))
  | inr other ↦ absurd (ground (arith, h, other))
]

pub strip_prefix-append : (p r : String) → strip_prefix p (p ++ r) ≡ some r
unfolding strip_prefix
strip_prefix-append [] r = ap some (nil-append r)
strip_prefix-append (c ∷ p) r = rw cons-append (ground (arith, strip_prefix-append p r))
