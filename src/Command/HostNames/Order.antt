-- ===== src/Command/HostNames/Order.antt =====
-- The order of texts by their bytes: total and transitive.
use Prim.Native.String.compare
use Prim.Native.String.{[] as nil, ◌∷◌ as ◌◂◌, compare}
use Prim.Native.Nat.{Ordering}
use service_discover.Common.{String, true, false, ◌≡◌, arith}
use text.Mathlib.TextEquality.{path_by_compare}
use service_discover.Command.HostNames.{is_before}

pub is_before_total : (s t : String) → is_before s t ≡ false → is_before t s ≡ true
is_before_total nil nil e = ground (arith, compare.nil-nil)
is_before_total nil (d ◂ t) e = ground (arith, e, compare.nil-cons d t)
is_before_total (c ◂ s) nil e = ground (arith, compare.nil-cons c s)
is_before_total (c ◂ s) (d ◂ t) e =
    ground (arith, e, compare.cons-cons c d s t, compare.cons-cons d c t s, is_before_total s t)

pub is_before_trans :
    (s t u : String) → is_before s t ≡ true → is_before t u ≡ true → is_before s u ≡ true
is_before_trans nil t nil e f = ground (arith, compare.nil-nil)
is_before_trans nil t (x ◂ u) e f = ground (arith, compare.nil-cons x u)
is_before_trans (c ◂ s) nil u e f = ground (arith, e, compare.cons-nil c s)
is_before_trans (c ◂ s) (d ◂ t) nil e f = ground (arith, f, compare.cons-nil d t)
is_before_trans (c ◂ s) (d ◂ t) (x ◂ u) e f = ground (
  arith,
  compare.cons-cons c d s t,
  compare.cons-cons d x t u,
  compare.cons-cons c x s u,
  is_before_trans s t u,
)

both_before :
    (s t : String) → is_before s t ≡ true → is_before t s ≡ true → compare s t ≡ Ordering.eq
both_before nil nil e f = compare.nil-nil
both_before nil (d ◂ t) e f = ground (arith, f, compare.cons-nil d t)
both_before (c ◂ s) nil e f = ground (arith, e, compare.cons-nil c s)
both_before (c ◂ s) (d ◂ t) e f =
    ground (arith, compare.cons-cons c d s t, compare.cons-cons d c t s, both_before s t)

pub is_before_antisym : (s t : String) → is_before s t ≡ true → is_before t s ≡ true → s ≡ t
is_before_antisym s t e f = path_by_compare s t (both_before s t e f)
