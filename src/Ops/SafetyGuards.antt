-- ===== src/Ops/SafetyGuards.antt =====
-- new/src/ops/safety_guards.py: the guards that the hot runner calls before a cycle. The guards are
-- given the clock's reading and what the authentication manager answers. The absolute value of -0.0
-- is -0.0 here.
pub mod Reconcile
pub mod Checks
pub mod Verdict
pub mod Raises
mod Examples
use flephant.Base.{
  ℕ, String, Bool, true, false, not, ◌&&◌, ◌||◌, Option, none, some, List, [], ◌∷◌, ◌++◌, map,
  if◌then◌else◌, length, Dict, lookup, insert,
}
use Prim.Native.String.{◌++◌ as join}
use flephant.Base.Int.{ℤ, pos, negsuc, ◌-ℤ◌, ltb_ℤ, pos_part, neg_part}
use flephant.Base.Result.{Result, ok, err, ◌>>=◌}
use flephant.Python.Value.{
  Value, Fields, Runtime, Raised, type_error, value_error, null, bool, int, float, str, list, dict,
  get, get_or, has, text_of,
}
use flephant.Utils.TickerUtils.{pad_ticker}
use flephant.Execution.KillSwitch.{KillSwitch, emergency_halt, trigger, check_daily_pnl}
use flephant.Execution.Gateway.Universe.{sorted_set}

pub data Severity : Type 0 where
  medium high critical : Severity

-- an item of `check_price_sanity`
pub record Anomaly (F : Type 0) : Type 0 where
  pub ticker : String
  pub prev : F
  pub current : F
  pub change_pct : F

-- an item of `reconcile_positions`
pub record Mismatch : Type 0 where
  pub ticker : String
  pub system_qty : ℤ
  pub kis_qty : ℤ
  pub diff : ℤ

pub data Detail (F : Type 0) : Type 0 where
  daily_pnl : F → F → Detail F
  refresh_needed : Detail F
  anomalies : List (Anomaly F) → Detail F
  reconciliation : List Mismatch → Detail F

pub record Issue (F : Type 0) : Type 0 where
  pub guard : String
  pub severity : Severity
  pub detail : Detail F
  pub ts : String

-- `SafetyGuardResult`; `ok` is renamed, the issues are in order
pub record GuardResult (F : Type 0) : Type 0 where
  pub issues : List (Issue F)
  pub is_ok : Bool

-- `needs_refresh` is what the authentication manager answers, if there is one.
pub record SafetyGuards (F : Type 0) : Type 0 where
  pub needs_refresh : Option Bool
  pub kill : Option (KillSwitch F)
  pub has_audit : Bool
  pub sanity_max_change_pct : F
  pub reconciliation_tol_qty : ℤ

-- A record that is handed to the audit logger.
pub data Record (F : Type 0) : Type 0 where
  safety_guards_check : GuardResult F → Record F
  halted : String → Bool → Record F

-- `severity in ("high", "critical")`
unfoldable pub is_blocking : Severity → Bool
is_blocking medium = false
is_blocking high = true
is_blocking critical = true

abbrev pub distance : ℤ → ℕ
distance (pos n) = n
distance (negsuc n) = ℕ.suc n

module _ {F : Type 0} where
  unfoldable pub no_issues : GuardResult F
  no_issues = record { issues = []; is_ok = true }

  -- `SafetyGuardResult.add`
  unfoldable pub add : String → Severity → Detail F → String → GuardResult F → GuardResult F
  add guard severity detail ts r = record {
    issues =
        r.issues ++ record { guard = guard; severity = severity; detail = detail; ts = ts } ∷ [];
    is_ok = if is_blocking severity then false else r.is_ok;
  }

-- `sys_map.get(t, 0)`
unfoldable pub quantity : String → Dict ℤ → ℤ
quantity ticker quantities = elim (lookup ticker quantities) [ none ↦ pos 0 | some n ↦ n ]

-- The test of one ticker.
unfoldable pub mismatch_of : ℤ → Dict ℤ → Dict ℤ → String → List Mismatch
unfolding quantity
mismatch_of tol system kis ticker =
    let diff = pos (distance (quantity ticker system -ℤ quantity ticker kis)) in
    if ltb_ℤ tol diff
    then record {
      ticker = ticker;
      system_qty = quantity ticker system;
      kis_qty = quantity ticker kis;
      diff = diff;
    }
      ∷ []
    else []

unfoldable pub mismatches_of : ℤ → Dict ℤ → Dict ℤ → List String → List Mismatch
mismatches_of tol system kis [] = []
mismatches_of tol system kis (t ∷ ts) =
    mismatch_of tol system kis t ++ mismatches_of tol system kis ts

unfoldable pub mismatches : ℤ → Dict ℤ → Dict ℤ → List Mismatch
mismatches tol system kis =
    mismatches_of tol system kis (sorted_set (map (λ e. e.0) system ++ map (λ e. e.0) kis))
