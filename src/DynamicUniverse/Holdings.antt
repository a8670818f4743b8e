-- ===== src/DynamicUniverse/Holdings.antt =====
-- new/src/dynamic_universe/holdings_manager.py: the stocks that are held beside the fixed universe,
-- each with the same weight. The files of snapshots and exits are written from the state and the
-- answers, and are left out.
pub mod Cases
use flephant.Base.{
  String, Bool, true, not, ◌||◌, Option, none, some, List, [], ◌∷◌, if◌then◌else◌, length, map,
  Dict, lookup, contains, insert, erase,
}
use flephant.Base.Int.{ℤ, pos, leb_ℤ}
use flephant.Python.Text.{zfill}
use flephant.Python.Calendar.{Calendar}
use flephant.Python.Value.{
  Value, Fields, Runtime, bool, int, float, str, dict, end, field, get_or, text_of,
}
use flephant.DynamicUniverse.Admission.Extract.{is_ticker}

-- The entry of a held stock; of its exit policy the two numbers.
pub record Holding (F : Type 0) : Type 0 where
  pub ticker : String
  pub weight : F
  pub admitted_at : Value F
  pub ttl_sec : ℤ
  pub stop_loss_pct : F
  pub promotion_id : String

pub record HoldingsManager (F : Type 0) : Type 0 where
  pub max_size : ℤ
  pub per_stock_max_weight : F
  pub total_max_weight : F
  pub ttl_sec : ℤ
  pub stop_loss_pct : F
  pub holdings : Dict (Holding F)

pub data ExitReason : Type 0 where
  market_close ttl_expiry stop_loss spike_resolved : ExitReason

pub record ExitEvent (F : Type 0) : Type 0 where
  pub exit_event_id : String
  pub ticker : String
  pub exit_reason : ExitReason
  pub exit_ts : String
  pub weight_freed : F

module _ {F : Type 0} where
  -- the entry as the dict that it is
  unfoldable pub entry_fields : Holding F → Fields F
  entry_fields h = field "ticker" (str h.ticker) (
      field "weight" (float h.weight) (
        field "admitted_at" h.admitted_at (
          field "exit_policy"
            (dict (
              field "ttl_sec" (int h.ttl_sec) (
                field "stop_loss_pct" (float h.stop_loss_pct)
                  (field "spike_resolved" (bool true) (field "market_close" (bool true) end)))))
            (field "promotion_id" (str h.promotion_id) end))))

  -- `get_holdings`
  unfoldable pub get_holdings : HoldingsManager F → List (Holding F)
  get_holdings m = map (λ e. e.1) m.holdings

  -- `remove`
  unfoldable pub remove :
      Calendar
      → ℤ
      → String
      → String
      → ExitReason
      → HoldingsManager F
      → Option (ExitEvent F) × HoldingsManager F
  remove cal now fresh raw reason m =
      let ticker = zfill 6 raw in
      elim (lookup ticker m.holdings) [
        | none ↦ (none, m)
        | some entry ↦ (
          some (record {
            exit_event_id = fresh;
            ticker = ticker;
            exit_reason = reason;
            exit_ts = cal.render now;
            weight_freed = entry.weight;
          }),
          record m { holdings = erase ticker m.holdings },
        )
      ]

  -- the entry of a promoted ticker
  unfoldable pub entry_for :
      Calendar → ℤ → String → String → Fields F → HoldingsManager F → Holding F
  entry_for cal now fresh ticker admission_event m = record {
    ticker = ticker;
    weight = m.per_stock_max_weight;
    admitted_at = get_or "admitted_at" (str (cal.render now)) admission_event;
    ttl_sec = m.ttl_sec;
    stop_loss_pct = m.stop_loss_pct;
    promotion_id = fresh;
  }

module _ {F : Type 0} ⦃py : Runtime F⦄ where
  add_weights : F → List (Holding F) → F
  add_weights total [] = total
  add_weights total (h ∷ hs) = add_weights (py.add total h.weight) hs

  -- `_current_total_weight`
  unfoldable pub current_total_weight : HoldingsManager F → F
  unfolding add_weights
  current_total_weight m = add_weights (py.of_int (pos 0)) (get_holdings m)

  -- `promote_to_holdings`, at the instant `now`; `fresh` is the identifier that would be generated
  unfoldable pub promote_to_holdings :
      Calendar → ℤ → String → Fields F → HoldingsManager F → Option (Holding F) × HoldingsManager F
  promote_to_holdings cal now fresh admission_event m =
      let ticker = zfill 6 (text_of (get_or "ticker" (str "") admission_event)) in
      let entry = entry_for cal now fresh ticker admission_event m in
      if not (is_ticker ticker) || contains ticker m.holdings
      then (none, m)
      else if leb_ℤ m.max_size (pos (length m.holdings))
      then (none, m)
      else if py.lt m.total_max_weight (py.add (current_total_weight m) m.per_stock_max_weight)
      then (none, m)
      else (some entry, record m { holdings = insert ticker entry m.holdings })
