-- ===== src/Execution/KillSwitch.antt =====
-- new/src/execution/kill_switch.py: the switch that blocks every order once the daily loss passes
-- its threshold, until an operator resets it.
pub mod Latch
use flephant.Base.{
  String, Bool, true, false, not, ◌||◌, Option, none, some, List, [], ◌∷◌, str_eq, if◌then◌else◌,
}
use flephant.Base.Result.{Result, ok, err}
use flephant.Python.Value.{Runtime, nonempty}

-- The text of a reason: the loss and the threshold that were compared, or a caller's own words.
pub data TriggerReason (F : Type 0) : Type 0 where
  daily_pnl : F → F → TriggerReason F
  given : String → TriggerReason F
  emergency_halt : String → TriggerReason F

-- The attributes of the object; the first three are set once, from the configuration.
pub record KillSwitch (F : Type 0) : Type 0 where
  pub threshold : F
  pub action : String
  pub operator_token : String
  pub active : Bool
  pub trigger_reason : Option (TriggerReason F)
  pub trigger_ts : Option String

pub data KillSwitchError : Type 0 where
  invalid_operator_token : KillSwitchError

module _ {F : Type 0} where
  unfoldable pub init : F → String → String → KillSwitch F
  init threshold action token = record {
    threshold = threshold;
    action = action;
    operator_token = token;
    active = false;
    trigger_reason = none;
    trigger_ts = none;
  }

  -- `now` is the clock's reading, as ISO text.
  unfoldable pub trigger : String → TriggerReason F → KillSwitch F → KillSwitch F
  trigger now reason k =
      if k.active
      then k
      else record k { active = true; trigger_reason = some reason; trigger_ts = some now }

  unfoldable pub reset : String → KillSwitch F → Result KillSwitchError (Unit {0}) × KillSwitch F
  reset token k =
      if not (nonempty token) || not (str_eq token k.operator_token)
      then (err invalid_operator_token, k)
      else if not k.active
      then (ok tt, k)
      else (ok tt, record k { active = false; trigger_reason = none; trigger_ts = none })

-- What callers can do to the switch.
pub data Call (F : Type 0) : Type 0 where
  checks : String → F → Call F
  triggers : String → TriggerReason F → Call F
  resets : String → Call F

module _ {F : Type 0} ⦃py : Runtime F⦄ where
  unfoldable pub check_daily_pnl : String → F → KillSwitch F → Bool × KillSwitch F
  unfolding trigger
  check_daily_pnl now pnl k =
      if k.active
      then (true, k)
      else if py.le pnl (py.neg k.threshold)
      then (true, trigger now (daily_pnl pnl (py.neg k.threshold)) k)
      else (false, k)

  unfoldable pub step : KillSwitch F → Call F → KillSwitch F
  unfolding trigger reset check_daily_pnl
  step k (checks now pnl) = (check_daily_pnl now pnl k).1
  step k (triggers now reason) = trigger now reason k
  step k (resets token) = (reset token k).1

  unfoldable pub run : KillSwitch F → List (Call F) → KillSwitch F
  run k [] = k
  run k (c ∷ cs) = run (step k c) cs
