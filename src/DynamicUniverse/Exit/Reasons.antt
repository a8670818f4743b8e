-- ===== src/DynamicUniverse/Exit/Reasons.antt =====
-- Why holdings are given up. The entries of the holdings manager have no price of entry.
use flephant.Base.{
  String, Bool, true, false, ◌≡◌, refl, ◌≢◌, subst, sym, ap, ◌∙◌, Option, none, some, List, [], ◌∷◌,
  arith, All, Dict, lookup, if_cases, if◌then◌else◌,
}
use flephant.Base.Int.{ℤ}
use flephant.Base.Result.{Result, ok, err, ◌>>=◌}
use flephant.Python.Calendar.{Calendar}
use flephant.Python.Value.{Fields, Runtime, Raised, get, is_null, nonempty, or_else, truthy}
use flephant.Utils.SafeCast.{to_float}
use flephant.DynamicUniverse.Admission.Types.{AdmissionEngine}
use flephant.DynamicUniverse.Admission.Extract.{float_of}
use flephant.DynamicUniverse.Admission.Handle.{remove_from_pool}
use flephant.DynamicUniverse.Holdings.{
  Holding, HoldingsManager, ExitReason, stop_loss, spike_resolved, ExitEvent, entry_fields,
  get_holdings, remove,
}
use flephant.DynamicUniverse.Exit.{
  ExitEngine, Evaluated, check_stop_loss, check_market_close, check_ttl_expiry,
  check_spike_resolved, price_stop, exit_reason, with_event, exited, decided, evaluate_all,
  evaluate,
}

-- A decision that is not the stop loss.
abbrev IsOther : Result Raised (Option ExitReason) → Type 0
IsOther r = r ≢ ok (some stop_loss)

resolved-IsOther :
    (r : Result Raised Bool)
    → IsOther (r >>= λ resolved. ok (if resolved then some spike_resolved else none))
resolved-IsOther (err e) k = cc
resolved-IsOther (ok true) k = ground arith
resolved-IsOther (ok false) k = cc

stopped-IsOther :
    (r : Result Raised Bool) (next : Result Raised (Option ExitReason))
    → r ≢ ok true
    → IsOther next
    → IsOther (r >>= λ stopped. if stopped then ok (some stop_loss) else next)
stopped-IsOther (err e) next n h k = cc
stopped-IsOther (ok true) next n h k = n refl
stopped-IsOther (ok false) next n h k = h k

module _ {F : Type 0} ⦃py : Runtime F⦄ where
  no_entry_price :
      (x : ExitEngine F) (h : Holding F) (price : F)
      → check_stop_loss x (entry_fields h) price ≡ false
  unfolding check_stop_loss entry_fields or_else truthy to_float
  no_entry_price x h price = refl

  stop_of :
      (x : ExitEngine F) (h : Holding F) (r : Result Raised F)
      → (r >>= λ price. ok (check_stop_loss x (entry_fields h) price)) ≢ ok true
  stop_of x h (err e) k = cc
  stop_of x h (ok price) k = ground (arith, no_entry_price x h price)

  price_never_stops :
      (x : ExitEngine F) (h : Holding F) (s : Option (Fields F)) → price_stop x h s ≢ ok true
  unfolding price_stop
  price_never_stops x h none = λ e. cc
  price_never_stops x h (some s) =
      if_cases (λ r. r ≢ ok true) (is_null (get "last_price" s)) (λ n e. cc)
        (λ n. stop_of x h (float_of (get "last_price" s)))

  module _ (cal : Calendar) (fresh : String → String) (x : ExitEngine F)
      (current_snapshot : Dict (Fields F)) (trigger_state : Option (Fields F)) (now time : ℤ) where
    exit_reason-IsOther :
        (h : Holding F) → IsOther (exit_reason cal x current_snapshot trigger_state now time h)
    unfolding exit_reason
    exit_reason-IsOther h =
        if_cases IsOther (check_market_close x time) (λ e k. ground arith)
          λ before.
            if_cases IsOther (check_ttl_expiry cal x h now) (λ e k. ground arith)
              λ young.
                stopped-IsOther (price_stop x h (lookup h.ticker current_snapshot)) _
                  (price_never_stops x h (lookup h.ticker current_snapshot))
                  (resolved-IsOther (check_spike_resolved cal x h trigger_state now))

    abbrev Unstopped : Evaluated F → Type 0
    Unstopped r =
        (events : List (ExitEvent F))
        → r.0 ≡ ok events
        → All (λ event. event.exit_reason ≢ stop_loss) events

    with_event-Unstopped :
        (event : ExitEvent F) (r : Evaluated F)
        → event.exit_reason ≢ stop_loss
        → Unstopped r
        → Unstopped (with_event event r)
    unfolding with_event
    with_event-Unstopped event (err e, m, a) n h events k = cc
    with_event-Unstopped event (ok later, m, a) n h events k =
        subst (All (λ e. e.exit_reason ≢ stop_loss)) {x = event ∷ later} (ground (arith, k))
          (n, h later refl)

    removed_for :
        (h : Holding F) (reason : ExitReason) (m : HoldingsManager F) (event : ExitEvent F)
        → (remove cal now (fresh h.ticker) h.ticker reason m).0 ≡ some event
        → event.exit_reason ≡ reason
    unfolding remove
    removed_for h reason m event k = ground (arith, k)

    exited-Unstopped :
        (h : Holding F) (a : AdmissionEngine F)
        (rest : HoldingsManager F → AdmissionEngine F → Evaluated F)
        (r : Option (ExitEvent F) × HoldingsManager F)
        → ((event : ExitEvent F) → r.0 ≡ some event → event.exit_reason ≢ stop_loss)
        → ((m' : HoldingsManager F) (a' : AdmissionEngine F) → Unstopped (rest m' a'))
        → Unstopped (exited cal fresh x current_snapshot trigger_state now time h a rest r)
    unfolding exited
    exited-Unstopped h a rest (none, m) n g = g m a
    exited-Unstopped h a rest (some event, m) n g =
        with_event-Unstopped event (rest m (remove_from_pool now h.ticker a).1) (n event refl)
          (g m (remove_from_pool now h.ticker a).1)

    decided-Unstopped :
        (h : Holding F) (r : Result Raised (Option ExitReason)) (m : HoldingsManager F)
        (a : AdmissionEngine F) (rest : HoldingsManager F → AdmissionEngine F → Evaluated F)
        → IsOther r
        → ((m' : HoldingsManager F) (a' : AdmissionEngine F) → Unstopped (rest m' a'))
        → Unstopped (decided cal fresh x current_snapshot trigger_state now time h r m a rest)
    unfolding decided
    decided-Unstopped h (err e) m a rest n g = λ events k. cc
    decided-Unstopped h (ok none) m a rest n g = g m a
    decided-Unstopped h (ok (some reason)) m a rest n g =
        exited-Unstopped h a rest (remove cal now (fresh h.ticker) h.ticker reason m)
          (λ event e s. n (ap (λ z. ok (some z)) (sym (removed_for h reason m event e) ∙ s))) g

    evaluate_all-Unstopped :
        (hs : List (Holding F)) (m : HoldingsManager F) (a : AdmissionEngine F)
        → Unstopped (evaluate_all cal fresh x current_snapshot trigger_state now time hs m a)
    unfolding evaluate_all
    evaluate_all-Unstopped [] m a = λ events k.
        subst (All (λ event. event.exit_reason ≢ stop_loss)) {x = []} (ground (arith, k)) tt
    evaluate_all-Unstopped (h ∷ hs) m a =
        if_cases Unstopped (nonempty h.ticker)
          (λ e. decided-Unstopped h _ m a _ (exit_reason-IsOther h) (evaluate_all-Unstopped hs))
          (λ e. evaluate_all-Unstopped hs m a)

    -- No evaluation gives up a holding for its loss, whatever the prices are: the entries that the
    -- holdings manager makes have no price of entry to compare with.
    pub evaluate_never_stops :
        (m : HoldingsManager F) (a : AdmissionEngine F) (events : List (ExitEvent F))
        → (evaluate cal fresh x current_snapshot trigger_state now time m a).0 ≡ ok events
        → All (λ event. event.exit_reason ≢ stop_loss) events
    unfolding evaluate
    evaluate_never_stops m a = evaluate_all-Unstopped (get_holdings m) m a
