-- ===== src/Ops/SafetyGuards/Checks.antt =====
-- The guards S-1 to S-6 and `check_all`.
use flephant.Base.{
  String, Bool, true, false, ◌||◌, Option, none, some, List, [], ◌∷◌, ◌++◌, if◌then◌else◌, Dict,
  lookup, insert,
}
use flephant.Base.Int.{ℤ, pos}
use flephant.Base.Result.{Result, ok, err, ◌>>=◌}
use flephant.Python.Value.{
  Value, Fields, Runtime, Raised, type_error, value_error, bool, int, float, str, get, get_or, has,
  text_of,
}
use flephant.Utils.TickerUtils.{pad_ticker}
use flephant.Execution.KillSwitch.{KillSwitch, emergency_halt, trigger, check_daily_pnl}
use flephant.Ops.SafetyGuards.{
  medium, high, critical, Anomaly, Mismatch, daily_pnl, refresh_needed, anomalies, reconciliation,
  GuardResult, SafetyGuards, Record, safety_guards_check, halted, no_issues, add, mismatches,
}

unfoldable pub parsed : Option ℤ → Result Raised ℤ
parsed none = err value_error
parsed (some n) = ok n

module _ {F : Type 0} ⦃py : Runtime F⦄ where
  magnitude : F → F
  magnitude x = if py.lt x (py.of_int (pos 0)) then py.neg x else x

  -- `previous_prices.get(padded, previous_prices.get(str(ticker)))`
  previous_price : String → Dict F → Option F
  previous_price ticker previous = elim (lookup (pad_ticker ticker) previous) [
    | some price ↦ some price
    | none ↦ lookup ticker previous
  ]

  anomaly_of : F → String → F → Option F → List (Anomaly F)
  unfolding magnitude
  anomaly_of limit ticker curr none = []
  anomaly_of limit ticker curr (some prev) =
      let change = py.div (magnitude (py.sub curr prev)) prev in
      if py.le prev (py.of_int (pos 0)) || py.le curr (py.of_int (pos 0))
      then []
      else if py.lt limit change
      then record { ticker = pad_ticker ticker; prev = prev; current = curr; change_pct = change }
        ∷ []
      else []

  -- `check_price_sanity`
  unfoldable pub check_price_sanity : SafetyGuards F → Dict F → Dict F → List (Anomaly F)
  unfolding previous_price anomaly_of
  check_price_sanity g [] previous = []
  check_price_sanity g ((ticker, curr) ∷ rest) previous =
      anomaly_of g.sanity_max_change_pct ticker curr (previous_price ticker previous)
      ++ check_price_sanity g rest previous

  -- `int(value)`
  unfoldable pub to_int : Value F → Result Raised ℤ
  unfolding parsed
  to_int (bool true) = ok (pos 1)
  to_int (bool false) = ok (pos 0)
  to_int (int n) = ok n
  to_int (float x) = if py.is_finite x then ok (py.truncate x) else err value_error
  to_int (str s) = parsed (py.parse_int s)
  to_int _ = err type_error

  -- `{pad_ticker(str(p["ticker"])): int(p.get("qty", 0)) for p in positions if "ticker" in p}`
  unfoldable pub quantities_loop : List (Fields F) → Dict ℤ → Result Raised (Dict ℤ)
  unfolding to_int
  quantities_loop [] quantities = ok quantities
  quantities_loop (p ∷ ps) quantities =
      if has "ticker" p
      then (to_int (get_or "qty" (int (pos 0)) p) >>= λ n.
          quantities_loop ps (insert (pad_ticker (text_of (get "ticker" p))) n quantities))
      else quantities_loop ps quantities

  unfoldable pub quantities : List (Fields F) → Result Raised (Dict ℤ)
  unfolding quantities_loop
  quantities ps = quantities_loop ps []

  -- `reconcile_positions`: the mismatches
  unfoldable pub reconcile_positions :
      SafetyGuards F → List (Fields F) → List (Fields F) → Result Raised (List Mismatch)
  reconcile_positions g system kis = do
    sys_map ← quantities system
    kis_map ← quantities kis
    ok (mismatches g.reconciliation_tol_qty sys_map kis_map)

-- The arguments of `check_all`.
pub record Checked (F : Type 0) : Type 0 where
  pub current_prices : Option (Dict F)
  pub previous_prices : Option (Dict F)
  pub system_positions : Option (List (Fields F))
  pub kis_positions : Option (List (Fields F))
  pub pnl : Option F

module _ {F : Type 0} ⦃py : Runtime F⦄ where
  -- S-1, where there is a switch and a loss to check: the issues and the switch after it
  unfoldable pub pnl_guard :
      String
      → Option (KillSwitch F)
      → Option F
      → GuardResult F
      → GuardResult F × Option (KillSwitch F)
  pnl_guard now (some k) (some pnl) r =
      let (triggered, k') = check_daily_pnl now pnl k in
      (if triggered then add "S-1" critical (daily_pnl pnl k.threshold) now r else r, some k')
  pnl_guard now kill pnl r = (r, kill)

  -- S-2
  unfoldable pub refresh_guard : String → Option Bool → GuardResult F → GuardResult F
  refresh_guard now (some true) r = add "S-2" medium refresh_needed now r
  refresh_guard now _ r = r

  unfoldable pub anomalies_guard : String → List (Anomaly F) → GuardResult F → GuardResult F
  anomalies_guard now [] r = r
  anomalies_guard now (a ∷ rest) r = add "S-3" high (anomalies (a ∷ rest)) now r

  -- S-3, where both price lists are there and not empty
  unfoldable pub price_guard :
      SafetyGuards F → String → Option (Dict F) → Option (Dict F) → GuardResult F → GuardResult F
  unfolding anomalies_guard
  price_guard g now (some (c ∷ cs)) (some (p ∷ ps)) r =
      anomalies_guard now (check_price_sanity g (c ∷ cs) (p ∷ ps)) r
  price_guard g now _ _ r = r

  unfoldable pub mismatches_guard : String → List Mismatch → GuardResult F → GuardResult F
  mismatches_guard now [] r = r
  mismatches_guard now (m ∷ ms) r = add "S-4" high (reconciliation (m ∷ ms)) now r

  -- S-4, where both lists of positions are there
  unfoldable pub position_guard :
      SafetyGuards F
      → String
      → Option (List (Fields F))
      → Option (List (Fields F))
      → GuardResult F
      → Result Raised (GuardResult F)
  unfolding mismatches_guard
  position_guard g now (some system) (some kis) r =
      reconcile_positions g system kis >>= λ found. ok (mismatches_guard now found r)
  position_guard g now _ _ r = ok r

  -- S-5: what is handed to the audit logger, if there is one
  unfoldable pub audited : SafetyGuards F → Record F → List (Record F)
  audited g rec = if g.has_audit then rec ∷ [] else []

  unfoldable pub finished :
      SafetyGuards F
      → Result Raised (GuardResult F)
      → Result Raised (GuardResult F) × List (Record F)
  finished g (ok r) = (ok r, audited g (safety_guards_check r))
  finished g (err e) = (err e, [])

  -- S-1 to S-4 on a fresh result: what is found, and the kill switch after it
  unfoldable pub checks :
      SafetyGuards F → String → Checked F → Result Raised (GuardResult F) × Option (KillSwitch F)
  unfolding pnl_guard refresh_guard price_guard position_guard
  checks g now c =
      let (r, kill) = pnl_guard now g.kill c.pnl no_issues in
      (
        position_guard g now c.system_positions c.kis_positions (
            price_guard g now c.current_prices c.previous_prices
              (refresh_guard now g.needs_refresh r)),
        kill,
      )

  -- `check_all`: the result or the exception, the records, and the guards after the call
  unfoldable pub check_all :
      SafetyGuards F
      → String
      → Checked F
      → Result Raised (GuardResult F) × List (Record F) × SafetyGuards F
  unfolding finished
  check_all g now c =
      let (r, kill) = checks g now c in
      let (answer, records) = finished g r in (answer, records, record g { kill = kill })

  -- `emergency_halt`: whether the switch was triggered, the records, and the guards after the call
  unfoldable pub emergency_halt_all :
      SafetyGuards F → String → String → Bool → Bool × List (Record F) × SafetyGuards F
  emergency_halt_all g now reason auto_liquidate = elim g.kill [
    | none ↦ (false, [], g)
    | some k ↦ (
      true,
      audited g (halted reason auto_liquidate),
      record g { kill = some (trigger now (emergency_halt reason) k) },
    )
  ]
