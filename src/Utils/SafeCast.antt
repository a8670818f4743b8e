-- ===== src/Utils/SafeCast.antt =====
-- new/src/utils/safe_cast.py. An int that is too large for a float is outside the model: `float(n)`
-- raises OverflowError there, which the functions do not catch.
use flephant.Base.{
  String, Bool, true, false, not, ◌||◌, Option, none, some, List, [], ◌∷◌, str_eq, ◌==◌,
  if◌then◌else◌, any,
}
use flephant.Base.Int.{ℤ, pos, negsuc, ltb_ℤ}
use flephant.Python.Text.{strip, lower}
use flephant.Python.Value.{Value, Runtime, null, bool, int, float, str}

pub true_words : List String
true_words = "true" ∷ "yes" ∷ "y" ∷ "1" ∷ "approve" ∷ "approved" ∷ "승인" ∷ []

pub false_words : List String
false_words = "false" ∷ "no" ∷ "n" ∷ "0" ∷ "veto" ∷ "reject" ∷ "rejected" ∷ "거부" ∷ "없음" ∷ "아님" ∷ []

-- `s in {...}`
unfoldable pub is_in : String → List String → Bool
unfolding any
is_in s words = any (str_eq s) words

word_bool : String → Bool → Bool
unfolding is_in true_words false_words
word_bool normalized default =
    if is_in normalized true_words
    then true
    else if is_in normalized false_words
    then false
    else default

at_least_int : Option ℤ → ℤ → ℤ
at_least_int none n = n
at_least_int (some low) n = if ltb_ℤ low n then n else low

at_most_int : Option ℤ → ℤ → ℤ
at_most_int none n = n
at_most_int (some high) n = if ltb_ℤ n high then n else high

below : Option ℤ → ℤ → Bool
below none n = false
below (some low) n = ltb_ℤ n low

above : Option ℤ → ℤ → Bool
above none n = false
above (some high) n = ltb_ℤ high n

bounded : ℤ → ℤ → Option ℤ → Option ℤ → ℤ
unfolding below above
bounded out default min_value max_value =
    if below min_value out then default else if above max_value out then default else out

module _ {F : Type 0} ⦃py : Runtime F⦄ where
  unfoldable pub safe_bool : Value F → Bool → Bool
  unfolding word_bool strip lower
  safe_bool (bool b) default = b
  safe_bool null default = default
  safe_bool (int (pos n)) default = not (n == 0)
  safe_bool (int (negsuc n)) default = true
  safe_bool (float x) default = not (py.eq x (py.of_int (pos 0)))
  safe_bool (str s) default = word_bool (lower (strip s)) default
  safe_bool _ default = default

  -- `float(value)`; `none` for TypeError and ValueError
  unfoldable pub to_float : Value F → Option F
  to_float (bool true) = some (py.of_int (pos 1))
  to_float (bool false) = some (py.of_int (pos 0))
  to_float (int n) = some (py.of_int n)
  to_float (float x) = some x
  to_float (str s) = py.parse s
  to_float _ = none

  -- `max(low, x)` and `min(high, x)` return the first argument on a tie
  at_least : Option F → F → F
  at_least none x = x
  at_least (some low) x = if py.lt low x then x else low

  at_most : Option F → F → F
  at_most none x = x
  at_most (some high) x = if py.lt x high then x else high

  unfoldable pub safe_float : Value F → F → Option F → Option F → F
  unfolding to_float at_least at_most
  safe_float value default min_value max_value = elim (to_float value) [
    | none ↦ default
    | some out ↦ if py.is_finite out then at_most max_value (at_least min_value out) else default
  ]

  unfoldable pub safe_confidence : Value F → F → F
  unfolding safe_float
  safe_confidence value default =
      safe_float value default (some (py.of_int (pos 0))) (some (py.of_int (pos 1)))

  unfoldable pub safe_int : Value F → ℤ → Option ℤ → Option ℤ → ℤ
  unfolding to_float at_least_int at_most_int
  safe_int value default min_value max_value = elim (to_float value) [
    | none ↦ default
    | some x ↦
        if py.is_finite x
        then at_most_int max_value (at_least_int min_value (py.truncate x))
        else default
  ]

  -- the whole number that a float stands for, if it stands for one
  lossless : Option F → Option ℤ
  lossless none = none
  lossless (some x) =
      if not (py.is_finite x) || not (py.is_integer x) then none else some (py.truncate x)

  integer_of : Value F → Option ℤ
  unfolding to_float lossless strip
  integer_of (bool b) = none
  integer_of (int n) = some n
  integer_of (str s) = lossless (py.parse (strip s))
  integer_of value = lossless (to_float value)

  unfoldable pub safe_lossless_int : Value F → ℤ → Option ℤ → Option ℤ → ℤ
  unfolding integer_of bounded
  safe_lossless_int value default min_value max_value = elim (integer_of value) [
    | none ↦ default
    | some out ↦ bounded out default min_value max_value
  ]
