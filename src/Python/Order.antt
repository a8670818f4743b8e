-- ===== src/Python/Order.antt =====
-- The order of texts: of two different texts one comes before the other.
use Prim.Native.Nat.{Ordering}
use Prim.Native.String.compare
use Prim.Native.String.{compare}
use text.Mathlib.TextEquality.{path_by_compare}
use flephant.Base.{String, true, false, ◌≡◌, arith, str_eq, eq_iff}
use flephant.Python.Text.{text_lt}

compare_gt : (s t : String) → compare s t ≡ Ordering.gt → compare t s ≡ Ordering.lt
compare_gt String.[] String.[] h = ground (arith)
compare_gt String.[] (String.◌∷◌ d t) h = ground (arith, compare.nil-cons d t)
compare_gt (String.◌∷◌ c s) String.[] h = compare.nil-cons c s
compare_gt (String.◌∷◌ c s) (String.◌∷◌ d t) h =
    ground (arith, compare.cons-cons c d s t, compare.cons-cons d c t s, compare_gt s t)

pub text_lt_total : (s t : String) → text_lt t s ≡ false → str_eq s t ≡ false → text_lt s t ≡ true
unfolding text_lt
text_lt_total s t h n =
    ground
      (arith, compare_gt s t, compare_gt t s, path_by_compare s t, path_by_compare t s, eq_iff s t)
