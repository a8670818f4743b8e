-- ===== src/DynamicUniverse/Exit.antt =====
-- new/src/dynamic_universe/exit_engine.py: the four reasons to give up a holding, tested in turn, and
-- the loop over the holdings, which removes from both managers. The prices by ticker and the state of
-- the triggers are arguments; `time_of_day` is `now.time()` in KST, in microseconds.
pub mod Reasons
pub mod Close
pub mod Keeps
use flephant.Base.{
  String, Bool, true, false, Option, none, some, List, [], ◌∷◌, if◌then◌else◌, Dict, lookup,
}
use flephant.Base.Int.{ℤ, pos, ◌-ℤ◌, ◌*ℤ◌, ltb_ℤ, leb_ℤ}
use flephant.Base.Result.{Result, ok, err, ◌>>=◌}
use flephant.Python.Calendar.{Calendar}
use flephant.Python.Value.{
  Value, Fields, Runtime, Raised, attribute_error, str, list, dict, nil, end, get, get_or, is_null,
  nonempty, truthy, or_else,
}
use flephant.Utils.SafeCast.{to_float}
use flephant.DynamicUniverse.Admission.Extract.{float_of, absolute}
use flephant.DynamicUniverse.Admission.Types.{AdmissionEngine}
use flephant.DynamicUniverse.Admission.Handle.{remove_from_pool}
use flephant.DynamicUniverse.Holdings.{
  Holding, HoldingsManager, ExitReason, market_close, ttl_expiry, stop_loss, spike_resolved,
  ExitEvent, entry_fields, get_holdings, remove,
}

-- The numbers that the constructor reads.
pub record ExitEngine (F : Type 0) : Type 0 where
  pub ttl_sec : ℤ
  pub stop_loss_pct : F
  pub market_close_time : ℤ
  pub spike_zscore_threshold : F
  pub spike_price_threshold : F
  pub spike_min_holding_sec : ℤ

-- What a call of `evaluate` comes to: an error in the middle leaves the removals before it.
abbrev pub Evaluated : Type 0 → Type 0
Evaluated F = Result Raised (List (ExitEvent F)) × HoldingsManager F × AdmissionEngine F

module _ {F : Type 0} where
  -- the instant of a text, if it can be read
  admitted_instant : Calendar → Value F → Option ℤ
  admitted_instant cal (str s) = if nonempty s then cal.parse s else none
  admitted_instant cal _ = none

  -- the time that an entry has been held
  unfoldable pub held_for : Calendar → ℤ → Holding F → Option ℤ
  unfolding admitted_instant
  held_for cal now h = elim (admitted_instant cal (get "admitted_at" (entry_fields h))) [
    | none ↦ none
    | some admitted_at ↦ some (now -ℤ admitted_at)
  ]

  -- `_check_ttl_expiry`
  unfoldable pub check_ttl_expiry : Calendar → ExitEngine F → Holding F → ℤ → Bool
  check_ttl_expiry cal x h now = elim (held_for cal now h) [
    | none ↦ false
    | some elapsed ↦ ltb_ℤ (x.ttl_sec *ℤ pos 1000000) elapsed
  ]

  -- `_check_market_close`
  unfoldable pub check_market_close : ExitEngine F → ℤ → Bool
  check_market_close x time = leb_ℤ x.market_close_time time

  unfoldable pub with_event : ExitEvent F → Evaluated F → Evaluated F
  with_event event (answer, m, a) = (answer >>= λ events. ok (event ∷ events), m, a)

module _ {F : Type 0} ⦃py : Runtime F⦄ where
  -- `_check_stop_loss`
  unfoldable pub check_stop_loss : ExitEngine F → Fields F → F → Bool
  check_stop_loss x entry current_price =
      elim (to_float (or_else (get "entry_price" entry) (get "last_price" entry))) [
        | none ↦ false
        | some entry_price ↦
            if py.le entry_price (py.of_int (pos 0))
            then false
            else py.lt (py.div (py.sub current_price entry_price) entry_price)
                (py.neg x.stop_loss_pct)
      ]

  -- the conditions on the state of the triggers of a ticker
  unfoldable pub is_calm : ExitEngine F → Value F → Result Raised Bool
  is_calm x (dict state) =
      let price_change = or_else (get "day_change_pct" state) (get "price_change_pct" state) in
      let price_calm =
        if is_null price_change
        then ok false
        else (float_of price_change >>= λ change. ok (
            if py.lt x.spike_price_threshold (absolute change)
            then false
            else if truthy (get_or "active_triggers" (list nil) state)
            then false
            else true)) in
      if is_null (get "community_zscore" state)
      then ok false
      else (float_of (get "community_zscore" state) >>= λ zscore.
          if py.le x.spike_zscore_threshold (absolute zscore) then ok false else price_calm)
  is_calm x _ = err attribute_error

  -- `_check_spike_resolved`
  unfoldable pub check_spike_resolved :
      Calendar → ExitEngine F → Holding F → Option (Fields F) → ℤ → Result Raised Bool
  unfolding is_calm
  check_spike_resolved cal x h none now = ok false
  check_spike_resolved cal x h (some trigger_state) now = elim (held_for cal now h) [
    | none ↦ ok false
    | some elapsed ↦
        if nonempty h.ticker
        then (if ltb_ℤ elapsed (x.spike_min_holding_sec *ℤ pos 1000000)
            then ok false
            else is_calm x (get_or h.ticker (dict end) trigger_state))
        else ok false
  ]

  unfoldable pub price_stop : ExitEngine F → Holding F → Option (Fields F) → Result Raised Bool
  price_stop x h none = ok false
  price_stop x h (some snapshot) =
      if is_null (get "last_price" snapshot)
      then ok false
      else (float_of (get "last_price" snapshot) >>= λ last_price.
          ok (check_stop_loss x (entry_fields h) last_price))

  -- The first reason that applies to a holding, if any does.
  unfoldable pub exit_reason :
      Calendar
      → ExitEngine F
      → Dict (Fields F)
      → Option (Fields F)
      → ℤ
      → ℤ
      → Holding F
      → Result Raised (Option ExitReason)
  unfolding price_stop
  exit_reason cal x current_snapshot trigger_state now time h =
      if check_market_close x time
      then ok (some market_close)
      else if check_ttl_expiry cal x h now
      then ok (some ttl_expiry)
      else (price_stop x h (lookup h.ticker current_snapshot) >>= λ stopped.
          if stopped
          then ok (some stop_loss)
          else (check_spike_resolved cal x h trigger_state now >>= λ resolved.
              ok (if resolved then some spike_resolved else none)))

  module _ (cal : Calendar) (fresh : String → String) (x : ExitEngine F)
      (current_snapshot : Dict (Fields F)) (trigger_state : Option (Fields F)) (now time : ℤ) where
    -- A holding for which a reason was sought.
    -- A holding that was removed, if it was there, leaves the pool of candidates too.
    unfoldable pub exited :
        Holding F
        → AdmissionEngine F
        → (HoldingsManager F → AdmissionEngine F → Evaluated F)
        → Option (ExitEvent F) × HoldingsManager F
        → Evaluated F
    exited h a rest (none, m) = rest m a
    exited h a rest (some event, m) = with_event event (rest m (remove_from_pool now h.ticker a).1)

    unfoldable pub decided :
        Holding F
        → Result Raised (Option ExitReason)
        → HoldingsManager F
        → AdmissionEngine F
        → (HoldingsManager F → AdmissionEngine F → Evaluated F)
        → Evaluated F
    unfolding exited
    decided h (err e) m a rest = (err e, m, a)
    decided h (ok none) m a rest = rest m a
    decided h (ok (some reason)) m a rest =
        exited h a rest (remove cal now (fresh h.ticker) h.ticker reason m)

    unfoldable pub evaluate_all :
        List (Holding F) → HoldingsManager F → AdmissionEngine F → Evaluated F
    unfolding decided
    evaluate_all [] m a = (ok [], m, a)
    evaluate_all (h ∷ hs) m a =
        if nonempty h.ticker
        then decided h (exit_reason cal x current_snapshot trigger_state now time h) m a
            (evaluate_all hs)
        else evaluate_all hs m a

    -- `evaluate`; `fresh` gives the identifiers of the events
    unfoldable pub evaluate : HoldingsManager F → AdmissionEngine F → Evaluated F
    unfolding evaluate_all
    evaluate m a = evaluate_all (get_holdings m) m a
