-- ===== src/Execution/KillSwitch/Latch.antt =====
-- The switch is a latch: it closes on a loss or a trigger, and only the operator's token opens it.
use flephant.Base.{◌≡◌, refl, ◌≢◌, ◌⊎◌, String, true, false, List, [], ◌∷◌, arith, eq_iff, All}
use flephant.Base.Result.{ok, err}
use flephant.Python.Value.{Runtime}
use flephant.Execution.KillSwitch.{
  KillSwitch, invalid_operator_token, reset, check_daily_pnl, Call, checks, triggers, resets, step,
  run,
}

module _ {F : Type 0} ⦃py : Runtime F⦄ where
  -- A call that is not a reset with the operator's token.
  abbrev pub IsUnauthorised : String → Call F → Type 0
  IsUnauthorised token (resets t) = t ≢ token
  IsUnauthorised token _ = Unit

  step-active :
      (k : KillSwitch F) (c : Call F)
      → k.active ≡ true
      → IsUnauthorised k.operator_token c
      → step k c ≡ k
  unfolding step
  step-active k (checks now pnl) a u = ground arith
  step-active k (triggers now reason) a u = ground arith
  step-active k (resets t) a u = ground (arith, eq_iff t k.operator_token)

  -- An active switch is left as it is, its first reason and time included, by any calls that do not
  -- hold the operator's token: further losses and triggers change nothing and nothing releases it.
  pub run_latched :
      (k : KillSwitch F) (cs : List (Call F))
      → k.active ≡ true
      → All (IsUnauthorised k.operator_token) cs
      → run k cs ≡ k
  unfolding run
  run_latched k [] a u = refl
  run_latched k (c ∷ cs) a u = let e = step-active k c a u.0 in rw e (run_latched k cs a u.1)

  -- The check answers whether the switch is active after it, and it is active exactly if it was, or
  -- if the loss has reached the threshold.
  pub check_daily_pnl_lem :
      (now : String) (pnl : F) (k : KillSwitch F)
      → let (answer, k') = check_daily_pnl now pnl k in
        (k'.active ≡ answer)
        × ((answer ≡ true → (k.active ≡ true) ⊎ (py.le pnl (py.neg k.threshold) ≡ true)))
        × (((k.active ≡ true) ⊎ (py.le pnl (py.neg k.threshold) ≡ true) → answer ≡ true))
  unfolding check_daily_pnl
  check_daily_pnl_lem now pnl k = ground arith

module _ {F : Type 0} where
  -- A reset succeeds exactly with the operator's token, which is not empty; then the switch is off.
  -- A refused reset changes nothing.
  pub reset_lem :
      (token : String) (k : KillSwitch F)
      → k.operator_token ≢ ""
      → let (answer, k') = reset token k in
        (token ≡ k.operator_token → (answer ≡ ok tt) × (k'.active ≡ false))
        × (token ≢ k.operator_token → (answer ≡ err invalid_operator_token) × (k' ≡ k))
  unfolding reset
  reset_lem token k h = ground (arith, eq_iff token k.operator_token, eq_iff token "")
