-- ===== src/DynamicUniverse/Exit/Close.antt =====
-- At the close of the market every holding is given up.
use flephant.Base.{
  ℕ, suc, String, true, ◌≡◌, refl, subst, sym, Option, some, List, [], ◌∷◌, arith, eq_refl, All,
  map, length, Dict,
}
use flephant.Base.Int.{ℤ}
use flephant.Base.Result.{ok, err}
use flephant.Python.Text.{zfill}
use flephant.Python.Calendar.{Calendar}
use flephant.Python.Value.{Fields, Runtime, nonempty}
use flephant.DynamicUniverse.Admission.Types.{AdmissionEngine}
use flephant.DynamicUniverse.Admission.Handle.{remove_from_pool}
use flephant.DynamicUniverse.Holdings.{
  Holding, HoldingsManager, market_close, ExitEvent, get_holdings, remove,
}
use flephant.DynamicUniverse.Exit.{
  ExitEngine, Evaluated, check_market_close, exit_reason, with_event, decided, exited, evaluate_all,
  evaluate,
}

module _ {F : Type 0} where
  -- A holding stands under its own ticker, padded.
  abbrev pub IsNamed : String × Holding F → Type 0
  IsNamed (key, h) = (zfill 6 h.ticker ≡ key) × (nonempty h.ticker ≡ true)

  -- Everything was given up, one event for each.
  abbrev pub IsCleared : ℕ → Evaluated F → Type 0
  IsCleared n r =
      (events : List (ExitEvent F)) × (r.0 ≡ ok events)
      × (length events ≡ n)
      × All (λ event. event.exit_reason ≡ market_close) events
      × (r.1.holdings ≡ [])

  with_event-IsCleared :
      (n : ℕ) (event : ExitEvent F) (r : Evaluated F)
      → event.exit_reason ≡ market_close
      → IsCleared n r
      → IsCleared (suc n) (with_event event r)
  unfolding with_event
  with_event-IsCleared n event (err e, m, a) c (events, k, l, all, h) = cc
  with_event-IsCleared n event (ok later, m, a) c (events, k, l, all, h) =
      (event ∷ later, refl, ground (arith, k, l), ground (arith, k, c, all), h)

module _ {F : Type 0} ⦃py : Runtime F⦄ (cal : Calendar) (fresh : String → String) (x : ExitEngine F)
    (current_snapshot : Dict (Fields F)) (trigger_state : Option (Fields F)) (now time : ℤ) where
  reason_at_close :
      (h : Holding F)
      → check_market_close x time ≡ true
      → exit_reason cal x current_snapshot trigger_state now time h ≡ ok (some market_close)
  unfolding exit_reason
  reason_at_close h closed = rw closed refl

  -- the event of a holding that is given up at the close
  exit_at_close : Holding F → ExitEvent F
  exit_at_close h = record {
    exit_event_id = fresh h.ticker;
    ticker = zfill 6 h.ticker;
    exit_reason = market_close;
    exit_ts = cal.render now;
    weight_freed = h.weight;
  }

  removed_first :
      (key : String) (h : Holding F) (d : Dict (Holding F)) (m : HoldingsManager F)
      → IsNamed (key, h)
      → remove cal now (fresh h.ticker) h.ticker market_close (record m { holdings = (key, h) ∷ d })
        ≡ (some (exit_at_close h), record m { holdings = d })
  unfolding remove exit_at_close
  removed_first key h d m (named, there) = ground (arith, named, eq_refl key)

  decided-IsCleared :
      (key : String) (h : Holding F) (d : Dict (Holding F)) (m : HoldingsManager F)
      (a : AdmissionEngine F) (n : ℕ) (rest : HoldingsManager F → AdmissionEngine F → Evaluated F)
      → IsNamed (key, h)
      → IsCleared n (rest (record m { holdings = d }) (remove_from_pool now h.ticker a).1)
      → IsCleared (suc n) (
          decided cal fresh x current_snapshot trigger_state now time h
            (ok (some market_close))
            (record m { holdings = (key, h) ∷ d })
            a
            rest)
  unfolding decided exited exit_at_close
  decided-IsCleared key h d m a n rest named c =
      subst
        (λ r.
          IsCleared (suc n) (exited cal fresh x current_snapshot trigger_state now time h a rest r))
        (sym (removed_first key h d m named))
        (with_event-IsCleared n (exit_at_close h)
          (rest (record m { holdings = d }) (remove_from_pool now h.ticker a).1) refl c)

  evaluate_all-IsCleared :
      (d : Dict (Holding F)) (m : HoldingsManager F) (a : AdmissionEngine F)
      → All IsNamed d
      → check_market_close x time ≡ true
      → IsCleared (length d) (
          evaluate_all cal fresh x current_snapshot trigger_state now time
            (map (λ e. e.1) d)
            (record m { holdings = d })
            a)
  unfolding evaluate_all
  evaluate_all-IsCleared [] m a named closed = ([], refl, refl, tt, refl)
  evaluate_all-IsCleared ((key, h) ∷ d) m a (named, rest) closed =
      rw (named.1, reason_at_close h closed)
        (decided-IsCleared key h d m a (length d)
          (evaluate_all cal fresh x current_snapshot trigger_state now time (map (λ e. e.1) d))
          named (evaluate_all-IsCleared d m (remove_from_pool now h.ticker a).1 rest closed))

  -- An evaluation at or after the time of the market's close, of holdings that stand under their own
  -- tickers, raises nothing: it gives one event for each holding, with the close as the reason, and
  -- leaves no holding.
  pub evaluate_at_close :
      (m : HoldingsManager F) (a : AdmissionEngine F)
      → All IsNamed m.holdings
      → check_market_close x time ≡ true
      → IsCleared
          (length m.holdings)
          (evaluate cal fresh x current_snapshot trigger_state now time m a)
  unfolding evaluate get_holdings
  evaluate_at_close m a named closed = evaluate_all-IsCleared m.holdings m a named closed
