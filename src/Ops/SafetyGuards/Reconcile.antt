-- ===== src/Ops/SafetyGuards/Reconcile.antt =====
-- The reconciliation of positions finds a difference wherever there is one.
use flephant.Base.{
  String, true, false, ◌||◌, ◌≡◌, refl, ◌↔◌, inl, inr, List, [], ◌∷◌, ◌++◌, map, arith, str_eq,
  eq_iff, any, Dict, contains, Bool-cases,
}
use flephant.Base.Int.{ℤ, pos, ◌-ℤ◌, ◌≤ℤ◌, ltb_ℤ}
use flephant.Utils.SafeCast.{is_in}
use flephant.Execution.Gateway.Universe.{insert_text, sorted_set}
use flephant.Ops.SafetyGuards.{distance, quantity, mismatch_of, mismatches_of, mismatches}

is_in-insert_text :
    (s t : String) (ss : List String) → is_in t (insert_text s ss) ≡ (str_eq t s || is_in t ss)
unfolding is_in insert_text any
is_in-insert_text s t [] = refl
is_in-insert_text s t (u ∷ us) =
    ground (arith, is_in-insert_text s t us, eq_iff t s, eq_iff s u, eq_iff t u)

is_in-sorted_set : (t : String) (ss : List String) → is_in t (sorted_set ss) ≡ is_in t ss
unfolding is_in sorted_set any
is_in-sorted_set t [] = refl
is_in-sorted_set t (s ∷ ss) =
    ground (arith, is_in-insert_text s t (sorted_set ss), is_in-sorted_set t ss)

is_in-append : (t : String) (xs ys : List String) → is_in t (xs ++ ys) ≡ (is_in t xs || is_in t ys)
unfolding is_in any
is_in-append t [] ys = refl
is_in-append t (x ∷ xs) ys = ground (arith, is_in-append t xs ys)

is_in-keys : {V : Type 0} (t : String) (d : Dict V) → is_in t (map (λ e. e.0) d) ≡ contains t d
unfolding is_in any
is_in-keys t [] = refl
is_in-keys t ((k, v) ∷ d) = ground (arith, is_in-keys t d, eq_iff t k, eq_iff k t)

-- The quantities of a ticker on both sides are within the tolerance.
abbrev pub IsWithin : ℤ → Dict ℤ → Dict ℤ → String → Type 0
IsWithin tol system kis t = ltb_ℤ tol (pos (distance (quantity t system -ℤ quantity t kis))) ≡ false

module _ (tol : ℤ) (system kis : Dict ℤ) where
  IsWithin-of_none :
      (t : String) (ts : List String)
      → mismatches_of tol system kis ts ≡ []
      → is_in t ts ≡ true
      → IsWithin tol system kis t
  unfolding mismatches_of mismatch_of is_in any
  IsWithin-of_none t [] h i = cc
  IsWithin-of_none t (u ∷ us) h i = ground (arith, eq_iff t u, IsWithin-of_none t us)

  none_of_within :
      (ts : List String)
      → ((t : String) → IsWithin tol system kis t)
      → mismatches_of tol system kis ts ≡ []
  unfolding mismatches_of mismatch_of
  none_of_within [] h = refl
  none_of_within (t ∷ ts) h = rw (h t) (none_of_within ts h)

  absent-IsWithin :
      (t : String)
      → pos 0 ≤ℤ tol
      → contains t system ≡ false
      → contains t kis ≡ false
      → IsWithin tol system kis t
  unfolding quantity ◌-ℤ◌
  absent-IsWithin t nonneg s k = ground arith

  tickers : List String
  tickers = map (λ e. e.0) system ++ map (λ e. e.0) kis

  either_absent :
      (t : String)
      → is_in t (sorted_set tickers) ≡ false
      → (contains t system ≡ false) × (contains t kis ≡ false)
  unfolding tickers
  either_absent t absent = ground (
    arith,
    is_in-sorted_set t tickers,
    is_in-append t (map (λ e. e.0) system) (map (λ e. e.0) kis),
    is_in-keys t system,
    is_in-keys t kis,
  )

  -- With a tolerance that is not negative, the reconciliation finds no mismatch exactly if every
  -- ticker, on either side or on none, has quantities on both sides that differ by no more than the
  -- tolerance; a ticker that a side does not have counts as zero there.
  pub mismatches_exact :
      pos 0 ≤ℤ tol → (mismatches tol system kis ≡ []) ↔ ((t : String) → IsWithin tol system kis t)
  unfolding mismatches tickers
  mismatches_exact nonneg = (
    λ h t. elim (Bool-cases (is_in t (sorted_set tickers))) [
      | inl there ↦ IsWithin-of_none t (sorted_set tickers) h there
      | inr absent ↦
          let nowhere = either_absent t absent in absent-IsWithin t nonneg nowhere.0 nowhere.1
    ],
    λ h. none_of_within (sorted_set tickers) h,
  )
