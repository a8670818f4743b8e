-- ===== src/DynamicUniverse/Gate.antt =====
-- new/src/dynamic_universe/gate.py: the switch of the dynamic universe, read from the configuration
-- file and kept for a minute. The file's content and the clock are arguments; what goes to the log of
-- transitions is given back.
pub mod Transitions
mod Examples
use flephant.Base.{
  String, Bool, true, false, not, ◌&&◌, ◌||◌, Option, none, some, List, [], ◌∷◌, ◌++◌,
  if◌then◌else◌,
}
use flephant.Base.Int.{ℤ, pos}
use flephant.Base.Result.{Result, ok, err}
use flephant.Python.Text.{lower}
use flephant.Python.Value.{
  Value, Fields, Runtime, Raised, attribute_error, bool, dict, end, get_or, or_else,
}
use flephant.Utils.SafeCast.{safe_bool, is_in}

-- `_cached_enabled` and `_cache_loaded_at`
pub record Gate (F : Type 0) : Type 0 where
  pub cached_enabled : Option Bool
  pub cache_loaded_at : F

-- an entry of gate_transitions.jsonl; the reason is always the reload
pub record Transition : Type 0 where
  pub from_state : Bool
  pub to_state : Bool

pub data GateError : Type 0 where
  forbidden_caller : String → GateError
  disabled : String → GateError
  raised : Raised → GateError

abbrev pub forbidden_callers : List String
forbidden_callers = "fda" ∷ "mode_b_scheduler" ∷ "backtest_agent" ∷ []

-- `prev is not None and prev != enabled`
unfoldable pub transitions_of : Option Bool → Bool → List Transition
transitions_of none enabled = []
transitions_of (some true) true = []
transitions_of (some false) false = []
transitions_of (some prev) enabled = record { from_state = prev; to_state = enabled } ∷ []

-- the error for an answer that is not true
unfoldable pub verdict : String → Result Raised Bool → Result GateError (Unit {0})
verdict caller (ok true) = ok tt
verdict caller (ok false) = err (disabled caller)
verdict caller (err e) = err (raised e)

module _ {F : Type 0} ⦃py : Runtime F⦄ where
  enabled_in : Value F → Result Raised Bool
  enabled_in (dict section) = ok (safe_bool (get_or "enabled" (bool false) section) false)
  enabled_in _ = err attribute_error

  section_of : Value F → Result Raised Bool
  unfolding enabled_in
  section_of (dict cfg) = enabled_in (get_or "dynamic_universe" (dict end) cfg)
  section_of _ = err attribute_error

  -- `_reload_enabled`, on the content of the file; `none` where it could not be loaded
  unfoldable pub reload_enabled : Option (Value F) → Result Raised Bool
  unfolding section_of
  reload_enabled none = section_of (dict end)
  reload_enabled (some content) = section_of (or_else content (dict end))

  -- whether the cache is empty, or older than a minute
  unfoldable pub is_stale : F → Gate F → Bool
  is_stale now g = elim g.cached_enabled [
    | none ↦ true
    | some enabled ↦ py.lt (py.of_int (pos 60)) (py.sub now g.cache_loaded_at)
  ]

  -- What a reload makes of the gate.
  unfoldable pub reloaded :
      F → Gate F → Result Raised Bool → Result Raised Bool × Gate F × List Transition
  reloaded now g (err e) = (err e, g, [])
  reloaded now g (ok enabled) = (
    ok enabled,
    record { cached_enabled = some enabled; cache_loaded_at = now },
    transitions_of g.cached_enabled enabled,
  )

  -- `is_enabled`
  unfoldable pub is_enabled :
      F → Option (Value F) → Gate F → Result Raised Bool × Gate F × List Transition
  is_enabled now content g = elim g.cached_enabled [
    | none ↦ reloaded now g (reload_enabled content)
    | some enabled ↦
        if is_stale now g then reloaded now g (reload_enabled content) else (ok enabled, g, [])
  ]

  -- `assert_enabled`
  unfoldable pub assert_enabled :
      F
      → Option (Value F)
      → String
      → Gate F
      → Result GateError (Unit {0}) × Gate F × List Transition
  assert_enabled now content caller g =
      if is_in (lower caller) forbidden_callers
      then (err (forbidden_caller caller), g, [])
      else (let (answer, g', log) = is_enabled now content g in (verdict caller answer, g', log))

  -- `invalidate_cache`
  unfoldable pub invalidate_cache : Gate F → Gate F
  invalidate_cache g = record { cached_enabled = none; cache_loaded_at = py.of_int (pos 0) }

  -- Many calls of `is_enabled`, each with its time and what the file holds then: the gate after
  -- them, and the log.
  unfoldable pub reads : List (F × Option (Value F)) → Gate F → Gate F × List Transition
  reads [] g = (g, [])
  reads ((now, content) ∷ rest) g =
      let (answer, g', log) = is_enabled now content g in
      let (last, later) = reads rest g' in (last, log ++ later)
