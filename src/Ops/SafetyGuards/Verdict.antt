-- ===== src/Ops/SafetyGuards/Verdict.antt =====
-- The verdict of `check_all`: when it says that trading may go on.
use flephant.Base.{
  String, Bool, true, false, not, ◌||◌, ◌≡◌, refl, ◌⊎◌, Option, none, some, List, [], ◌∷◌, ◌++◌,
  arith, any, Dict, subst,
}
use flephant.Base.Result.{Result, ok, err, ◌>>=◌}
use flephant.Python.Value.{Fields, Runtime, Raised}
use flephant.Execution.KillSwitch.{KillSwitch, emergency_halt, trigger}
use flephant.Execution.KillSwitch.Latch.{check_daily_pnl_lem}
use flephant.Ops.SafetyGuards.{
  Severity, Anomaly, Mismatch, Detail, Issue, GuardResult, SafetyGuards, is_blocking, no_issues,
  add,
}
use flephant.Ops.SafetyGuards.Checks.{
  Checked, pnl_guard, refresh_guard, anomalies_guard, price_guard, mismatches_guard, position_guard,
  reconcile_positions, check_price_sanity, checks, finished, check_all, emergency_halt_all,
}

module _ {F : Type 0} where
  -- Whether one of the issues is high or critical.
  abbrev pub blocked : List (Issue F) → Bool
  blocked issues = any (λ i. is_blocking i.severity) issues

  -- The verdict agrees with the issues.
  abbrev pub IsConsistent : GuardResult F → Type 0
  IsConsistent r = r.is_ok ≡ not (blocked r.issues)

  any-append :
      (p : Issue F → Bool) (xs : List (Issue F)) (y : Issue F)
      → any p (xs ++ y ∷ []) ≡ (any p xs || p y)
  unfolding any
  any-append p [] y = ground arith
  any-append p (x ∷ xs) y = ground (arith, any-append p xs y)

  add-IsConsistent :
      (guard : String) (s : Severity) (d : Detail F) (ts : String) (r : GuardResult F)
      → IsConsistent r
      → IsConsistent (add guard s d ts r)
  unfolding add
  add-IsConsistent guard s d ts r h = ground (
    arith,
    any-append (λ i. is_blocking i.severity) r.issues
        (record { guard = guard; severity = s; detail = d; ts = ts }),
  )

  -- Once an issue blocks, what is added does not unblock.
  add_blocked :
      (guard : String) (s : Severity) (d : Detail F) (ts : String) (r : GuardResult F)
      → r.is_ok ≡ false
      → (add guard s d ts r).is_ok ≡ false
  unfolding add
  add_blocked guard s d ts r h = ground arith

module _ {F : Type 0} ⦃py : Runtime F⦄ where
  finished_ok :
      (g : SafetyGuards F) (m : Result Raised (GuardResult F)) (r : GuardResult F)
      → (finished g m).0 ≡ ok r
      → m ≡ ok r
  unfolding finished
  finished_ok g (ok q) r e = e
  finished_ok g (err x) r e = cc

  -- What every guard keeps if `add` does.
  module _ (P : GuardResult F → Type 0)
      (adds : (guard : String) (s : Severity) (d : Detail F) (ts : String) (r : GuardResult F)
        → P r
        → P (add guard s d ts r)) where
    refresh_keeps :
        (now : String) (n : Option Bool) (r : GuardResult F) → P r → P (refresh_guard now n r)
    unfolding refresh_guard
    refresh_keeps now none r h = h
    refresh_keeps now (some false) r h = h
    refresh_keeps now (some true) r h = adds _ _ _ _ r h

    anomalies_keep :
        (now : String) (found : List (Anomaly F)) (r : GuardResult F)
        → P r
        → P (anomalies_guard now found r)
    unfolding anomalies_guard
    anomalies_keep now [] r h = h
    anomalies_keep now (a ∷ rest) r h = adds _ _ _ _ r h

    price_keeps :
        (g : SafetyGuards F) (now : String) (current previous : Option (Dict F)) (r : GuardResult F)
        → P r
        → P (price_guard g now current previous r)
    unfolding price_guard
    price_keeps g now none previous r h = h
    price_keeps g now (some []) previous r h = h
    price_keeps g now (some (c ∷ cs)) none r h = h
    price_keeps g now (some (c ∷ cs)) (some []) r h = h
    price_keeps g now (some (c ∷ cs)) (some (p ∷ ps)) r h =
        anomalies_keep now (check_price_sanity g (c ∷ cs) (p ∷ ps)) r h

    mismatches_keep :
        (now : String) (found : List Mismatch) (r : GuardResult F)
        → P r
        → P (mismatches_guard now found r)
    unfolding mismatches_guard
    mismatches_keep now [] r h = h
    mismatches_keep now (m ∷ ms) r h = adds _ _ _ _ r h

    -- The property of a result that is given.
    abbrev Given : Result Raised (GuardResult F) → Type 0
    Given (ok r) = P r
    Given (err e) = Unit

    position_keeps :
        (g : SafetyGuards F) (now : String) (system kis : Option (List (Fields F)))
        (r : GuardResult F)
        → P r
        → Given (position_guard g now system kis r)
    unfolding position_guard
    position_keeps g now none kis r h = h
    position_keeps g now (some s) none r h = h
    position_keeps g now (some s) (some k) r h = go (reconcile_positions g s k)
      where
        go :
            (m : Result Raised (List Mismatch))
            → Given (m >>= λ found. ok (mismatches_guard now found r))
        go (err e) = tt
        go (ok found) = mismatches_keep now found r h

    checks_keep :
        (g : SafetyGuards F) (now : String) (c : Checked F)
        → P (pnl_guard now g.kill c.pnl no_issues).0
        → Given (checks g now c).0
    unfolding checks
    checks_keep g now c h = position_keeps g now c.system_positions c.kis_positions _ (
        price_keeps g now c.current_prices c.previous_prices _
          (refresh_keeps now g.needs_refresh _ h))

    given :
        (g : SafetyGuards F) (now : String) (c : Checked F) (r : GuardResult F)
        → P (pnl_guard now g.kill c.pnl no_issues).0
        → (check_all g now c).0 ≡ ok r
        → P r
    unfolding check_all
    given g now c r h e = subst Given (finished_ok g (checks g now c).0 r e) (checks_keep g now c h)

  fresh-IsConsistent :
      (now : String) (kill : Option (KillSwitch F)) (pnl : Option F)
      → IsConsistent (pnl_guard now kill pnl no_issues).0
  unfolding pnl_guard no_issues add any is_blocking
  fresh-IsConsistent now none pnl = refl
  fresh-IsConsistent now (some k) none = refl
  fresh-IsConsistent now (some k) (some pnl) = ground arith

  -- The verdict of `check_all` is ok exactly if none of its issues is high or critical.
  pub check_all-IsConsistent :
      (g : SafetyGuards F) (now : String) (c : Checked F) (r : GuardResult F)
      → (check_all g now c).0 ≡ ok r
      → r.is_ok ≡ not (blocked r.issues)
  check_all-IsConsistent g now c r e =
      given IsConsistent add-IsConsistent g now c r (fresh-IsConsistent now g.kill c.pnl) e

  tripped :
      (now : String) (k : KillSwitch F) (pnl : F)
      → (k.active ≡ true) ⊎ (py.le pnl (py.neg k.threshold) ≡ true)
      → (pnl_guard now (some k) (some pnl) no_issues).0.is_ok ≡ false
  unfolding pnl_guard add is_blocking
  tripped now k pnl h = rw ((check_daily_pnl_lem now pnl k).2 h) refl

  -- Where a kill switch and a daily loss are given, and the switch is active or the loss has reached
  -- its threshold, no result of `check_all` is ok, whatever the other guards find.
  pub check_all_blocks :
      (g : SafetyGuards F) (now : String) (c : Checked F) (k : KillSwitch F) (pnl : F)
      (r : GuardResult F)
      → g.kill ≡ some k
      → c.pnl ≡ some pnl
      → (k.active ≡ true) ⊎ (py.le pnl (py.neg k.threshold) ≡ true)
      → (check_all g now c).0 ≡ ok r
      → r.is_ok ≡ false
  check_all_blocks g now c k pnl r kill given_pnl loss e =
      given (λ q. q.is_ok ≡ false) add_blocked g now c r
        (rw (kill, given_pnl) (tripped now k pnl loss)) e

  -- An emergency halt leaves the kill switch active, where there is one.
  emergency_halt_active :
      (g : SafetyGuards F) (now reason : String) (auto_liquidate : Bool) (k : KillSwitch F)
      → g.kill ≡ some k
      → (k' : KillSwitch F) × ((emergency_halt_all g now reason auto_liquidate).2.kill ≡ some k')
        × (k'.active ≡ true)
  unfolding emergency_halt_all trigger
  emergency_halt_active g now reason auto_liquidate k kill =
      (trigger now (emergency_halt reason) k, ground arith, ground arith)
