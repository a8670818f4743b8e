-- ===== src/Ops/SafetyGuards/Examples.antt =====
-- The guards on a day with a loss, and positions that differ.
use flephant.Base.{
  String, true, false, not, ◌≡◌, refl, ◌↔◌, ◌⊎◌, inr, none, some, [], ◌∷◌, Dict, arith,
}
use flephant.Base.Int.{ℤ, pos, negsuc, ◌≤ℤ◌, ◌-ℤ◌}
use flephant.Base.Result.{ok, err}
use flephant.Python.Value.{Value, Raised, Fields, str, int, field, end}
use flephant.Python.Whole.{whole}
use flephant.Execution.KillSwitch.{KillSwitch, check_daily_pnl}
use flephant.Ops.SafetyGuards.{
  medium, critical, daily_pnl, refresh_needed, GuardResult, SafetyGuards, mismatches, add,
  is_blocking, no_issues,
}
use flephant.Ops.SafetyGuards.Checks.{Checked, check_all, checks}
use flephant.Ops.SafetyGuards.Reconcile.{IsWithin, mismatches_exact}
use flephant.Ops.SafetyGuards.Raises.{BothReadable, check_all_answers}
use flephant.Ops.SafetyGuards.Verdict.{blocked, check_all-IsConsistent, check_all_blocks}

abbrev switch : KillSwitch ℤ
switch = record {
  threshold = pos 3;
  action = "halt";
  operator_token = "token";
  active = false;
  trigger_reason = none;
  trigger_ts = none;
}

abbrev guards : SafetyGuards ℤ
guards = record {
  needs_refresh = some true;
  kill = some switch;
  has_audit = true;
  sanity_max_change_pct = pos 30;
  reconciliation_tol_qty = pos 1;
}

abbrev loss : Checked ℤ
loss = record {
  current_prices = none;
  previous_prices = none;
  system_positions = none;
  kis_positions = none;
  pnl = some (negsuc 8);
}

abbrev loss_result : GuardResult ℤ
loss_result = record {
  issues =
      record {
        guard = "S-1";
        severity = critical;
        detail = daily_pnl (negsuc 8) (pos 3);
        ts = "09:00";
      }
      ∷ record { guard = "S-2"; severity = medium; detail = refresh_needed; ts = "09:00" }
      ∷ [];
  is_ok = false;
}

loss_checked : (check_all guards "09:00" loss).0 ≡ ok loss_result
unfolding check_all checks add check_daily_pnl is_blocking ◌-ℤ◌ no_issues
loss_checked = refl

check_all-IsConsistent_example : loss_result.is_ok ≡ not (blocked loss_result.issues)
check_all-IsConsistent_example = check_all-IsConsistent guards "09:00" loss loss_result loss_checked

loss_over : whole.le (negsuc 8) (whole.neg switch.threshold) ≡ true
unfolding ◌-ℤ◌
loss_over = refl

check_all_blocks_example : loss_result.is_ok ≡ false
check_all_blocks_example =
    check_all_blocks guards "09:00" loss switch (negsuc 8) loss_result refl refl (inr loss_over)
      loss_checked

abbrev position : String → Value ℤ → Fields ℤ
position ticker qty = field "ticker" (str ticker) (field "qty" qty end)

-- One quantity is no number, and the loss has reached the threshold.
abbrev unreadable : Checked ℤ
unreadable = record {
  current_prices = none;
  previous_prices = none;
  system_positions = some (position "5930" (int (pos 10)) ∷ []);
  kis_positions = some (position "005930" (str "?") ∷ []);
  pnl = some (negsuc 8);
}

check_all_answers_example :
    let r = check_all guards "09:00" unreadable in
    (((result : GuardResult ℤ) × (r.0 ≡ ok result))
      ↔ BothReadable unreadable.system_positions unreadable.kis_positions)
    × ((e : Raised) → r.0 ≡ err e → r.1 ≡ [])
    × ((k : KillSwitch ℤ) (pnl : ℤ)
        → guards.kill ≡ some k
        → unreadable.pnl ≡ some pnl
        → (k.active ≡ true) ⊎ (whole.le pnl (whole.neg k.threshold) ≡ true)
        → (k' : KillSwitch ℤ) × (r.2.kill ≡ some k') × (k'.active ≡ true))
check_all_answers_example = check_all_answers guards "09:00" unreadable

abbrev system : Dict ℤ
system = ("005930", pos 10) ∷ ("000660", pos 4) ∷ []

abbrev kis : Dict ℤ
kis = ("005930", pos 8) ∷ []

nonneg : pos 0 ≤ℤ pos 1
nonneg = omega arith

mismatches_exact_example :
    (mismatches (pos 1) system kis ≡ []) ↔ ((t : String) → IsWithin (pos 1) system kis t)
mismatches_exact_example = mismatches_exact (pos 1) system kis nonneg
