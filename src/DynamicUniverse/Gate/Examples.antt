-- ===== src/DynamicUniverse/Gate/Examples.antt =====
-- A gate that is off, and a file in which it is turned on and off again.
use flephant.Base.{Bool, true, false, ◌≡◌, refl, Option, some, List, [], ◌∷◌}
use flephant.Base.Int.{ℤ, pos}
use flephant.Base.Result.{ok}
use flephant.Python.Text.{lower}
use flephant.Python.Value.{Value, bool, dict, field, end}
use flephant.Python.Whole.{whole}
use flephant.Utils.SafeCast.{is_in}
use flephant.DynamicUniverse.Gate.{Gate, forbidden_callers, is_enabled, assert_enabled, reads}
use flephant.DynamicUniverse.Gate.Transitions.{LeadsTo, reads-LeadsTo, assert_enabled_lem}

abbrev gate : Gate ℤ
gate = record { cached_enabled = some false; cache_loaded_at = pos 0 }

abbrev file : Bool → Option (Value ℤ)
file enabled =
    some (dict (field "dynamic_universe" (dict (field "enabled" (bool enabled) end)) end))

-- The second call finds the cache fresh.
abbrev calls : List (ℤ × Option (Value ℤ))
calls = (pos 100, file true) ∷ (pos 120, file false) ∷ (pos 300, file false) ∷ []

reads-LeadsTo_example :
    (c : Bool) × ((reads calls gate).0.cached_enabled ≡ some c)
    × LeadsTo false (reads calls gate).1 c
reads-LeadsTo_example = reads-LeadsTo calls gate false refl

assert_enabled_example :
    ((assert_enabled (pos 100) (file true) "manager" gate).0 ≡ ok tt
      → (is_in (lower "manager") forbidden_callers ≡ false)
        × ((is_enabled (pos 100) (file true) gate).0 ≡ ok true)
        × ((assert_enabled (pos 100) (file true) "manager" gate).1.cached_enabled ≡ some true))
    × (is_in (lower "manager") forbidden_callers ≡ false
        → (is_enabled (pos 100) (file true) gate).0 ≡ ok true
        → (assert_enabled (pos 100) (file true) "manager" gate).0 ≡ ok tt)
assert_enabled_example = assert_enabled_lem (pos 100) (file true) "manager" gate
