-- ===== src/DynamicUniverse/Examples.antt =====
-- A manager with room for one holding, two candidates on one day, and the close of the market.
use flephant.Base.{
  String, true, false, ◌≡◌, refl, ◌≢◌, none, some, List, [], ◌∷◌, str_eq, if◌then◌else◌, arith, All,
  Dict, contains, insert, any,
}
use flephant.Base.Int.{ℤ, pos, ◌≤ℤ◌, ◌<ℤ◌, ◌+ℤ◌, ◌*ℤ◌, ◌-ℤ◌}
use flephant.Base.Result.{ok}
use flephant.Python.Calendar.{Calendar}
use flephant.Python.Value.{Fields, str, int, bool, dict, field, end, or_else, text_of, truthy}
use flephant.Python.Whole.{whole}
use flephant.Utils.SafeCast.{is_in, safe_bool}
use flephant.DynamicUniverse.Gate.{is_enabled, is_stale, reload_enabled, reloaded}
use flephant.DynamicUniverse.Admission.Types.{AdmissionEvent, AdmissionEngine, event_fields}
use flephant.DynamicUniverse.Admission.Extract.{
  normalize_price_snapshot_candidate, is_text, is_ticker,
}
use flephant.DynamicUniverse.Admission.Handle.{
  is_cooling, time_of, pit_check, handle_event, admission_event, admit_matched, consider,
  handle_normalized, handled, is_admissible, ticker_raw, matched,
}
use flephant.DynamicUniverse.Admission.Safety.{handle_event-IsGuarded}
use flephant.DynamicUniverse.Holdings.{
  Holding, HoldingsManager, ttl_expiry, stop_loss, ExitEvent, entry_fields, get_holdings, remove,
  current_total_weight, entry_for, promote_to_holdings,
}
use flephant.DynamicUniverse.Exit.{
  ExitEngine, check_market_close, evaluate, check_ttl_expiry, exit_reason, held_for, with_event,
  check_spike_resolved, decided, evaluate_all, price_stop,
}
use flephant.DynamicUniverse.Exit.Reasons.{evaluate_never_stops}
use flephant.DynamicUniverse.Exit.Close.{IsNamed, IsCleared, evaluate_at_close}
use flephant.DynamicUniverse.Manager.{
  Manager, Moment, Call, handles, cycles, run, cycle_gated, cycle_once, evaluated,
  handle_admission_event, handle_enabled, handle_gated, promoted, step,
}
use flephant.DynamicUniverse.Manager.Steps.{IsManaged, run-IsManaged}
use flephant.DynamicUniverse.Manager.Stuck.{run_stuck}
use flephant.Python.Text.{zfill}
use flephant.DynamicUniverse.Admission.Rules.{match_admission_rules}

abbrev calendar : Calendar
calendar = record {
  parse = λ s. if str_eq s "09:00" then some (pos 9000000) else none;
  render = λ n. "09:00";
  latest = pos 1000000000;
}

abbrev rule : Fields ℤ
rule = field "id" (str "dart_hot_ticker_admission") (field "action" (str "admit_candidate") end)

abbrev engine : Dict AdmissionEvent → AdmissionEngine ℤ
engine pool = record {
  min_trigger_count = pos 1;
  cooldown_sec = pos 300;
  candidate_pool_max = pos 2;
  ttl_sec = pos 1800;
  admission_rules = rule ∷ [];
  trade_tickers = "005930" ∷ [];
  watch_tickers = "000660" ∷ "035420" ∷ [];
  candidate_pool = pool;
  cooldown_map = [];
}

abbrev event : String → Fields ℤ
event ticker = field "event_type" (str "dart") (
    field "ticker" (str ticker)
      (field "priority" (str "urgent") (field "occurred_at" (str "09:00") end)))

abbrev admission : String → AdmissionEvent
admission ticker = record {
  admission_event_id = "ADM";
  ts = "09:00";
  ticker = ticker;
  trigger_ids = "dart_hot_ticker_admission" ∷ [];
  ttl_sec = pos 1800;
  admitted_at = "09:00";
}

admits :
    (handle_event calendar false (pos 9000000) "ADM" (event "660") (engine [])).0
    ≡ ok (some (admission "000660"))
unfolding handle_event handled normalize_price_snapshot_candidate is_text handle_normalized
    ticker_raw truthy pit_check time_of or_else consider is_admissible is_in zfill text_of is_ticker
    match_admission_rules admit_matched admission_event
admits = refl

handle_event-IsGuarded_example :
    let r = handle_event calendar false (pos 9000000) "ADM" (event "660") (engine []) in
    ((normal : Fields ℤ) × (normalize_price_snapshot_candidate (event "660") ≡ ok normal)
      × (pit_check calendar false (pos 9000000) (time_of normal) ≡ none))
    × (is_in "000660" ("000660" ∷ "035420" ∷ []) ≡ true)
    × (is_in "000660" ("005930" ∷ []) ≡ false)
    × (contains "000660" (engine []).candidate_pool ≡ false)
    × (is_cooling (pos 9000000) "000660" (engine []) ≡ false)
    × (pos 0 <ℤ pos 2)
    × (pos 1 ≤ℤ pos 1)
    × (r.1.candidate_pool ≡ insert "000660" (admission "000660") [])
handle_event-IsGuarded_example =
    handle_event-IsGuarded calendar false (pos 9000000) "ADM" (event "660") (engine [])
      (admission "000660") admits

abbrev holding : Holding ℤ
holding = record {
  ticker = "000660";
  weight = pos 3;
  admitted_at = str "09:00";
  ttl_sec = pos 1800;
  stop_loss_pct = pos 2;
  promotion_id = "PRO";
}

abbrev holdings : Dict (Holding ℤ) → HoldingsManager ℤ
holdings held = record {
  max_size = pos 1;
  per_stock_max_weight = pos 3;
  total_max_weight = pos 10;
  ttl_sec = pos 1800;
  stop_loss_pct = pos 2;
  holdings = held;
}

abbrev exits : ExitEngine ℤ
exits = record {
  ttl_sec = pos 1800;
  stop_loss_pct = pos 2;
  market_close_time = pos 100;
  spike_zscore_threshold = pos 2;
  spike_price_threshold = pos 2;
  spike_min_holding_sec = pos 600;
}

abbrev given_up : ExitEvent ℤ
given_up = record {
  exit_event_id = "000660";
  ticker = "000660";
  exit_reason = ttl_expiry;
  exit_ts = "09:00";
  weight_freed = pos 3;
}

abbrev prices : Dict (Fields ℤ)
prices = ("000660", field "last_price" (int (pos 1)) end) ∷ []

abbrev one_held : HoldingsManager ℤ
one_held = holdings (("000660", holding) ∷ [])

expires :
    (evaluate calendar
      (λ t. t)
      exits
      prices
      none
      (pos 9000000000)
      (pos 50)
      one_held
      (engine (("000660", admission "000660") ∷ []))).0
    ≡ ok (given_up ∷ [])
unfolding evaluate get_holdings exit_reason check_market_close check_ttl_expiry held_for
    entry_fields ◌*ℤ◌ ◌-ℤ◌ remove zfill with_event
expires = refl

evaluate_never_stops_example : All (λ e. e.exit_reason ≢ stop_loss) (given_up ∷ [])
evaluate_never_stops_example =
    evaluate_never_stops calendar (λ t. t) exits prices none (pos 9000000000) (pos 50) one_held
      (engine (("000660", admission "000660") ∷ [])) (given_up ∷ []) expires

is_named : All IsNamed one_held.holdings
unfolding zfill
is_named = ((refl, refl), tt)

closed : check_market_close exits (pos 200) ≡ true
unfolding check_market_close
closed = refl

evaluate_at_close_example :
    IsCleared 1
      (evaluate calendar (λ t. t) exits prices none (pos 9000000000) (pos 200) one_held (engine []))
evaluate_at_close_example =
    evaluate_at_close calendar (λ t. t) exits prices none (pos 9000000000) (pos 200) one_held
      (engine []) is_named closed

abbrev manager : Manager ℤ
manager = record {
  gate = record { cached_enabled = none; cache_loaded_at = pos 0 };
  admission = engine [];
  holdings = holdings [];
  exit = exits;
}

abbrev moment : ℤ → Moment ℤ
moment time = record {
  monotonic = pos 1;
  content = some (dict (field "dynamic_universe" (dict (field "enabled" (bool true) end)) end));
  now = pos 9000000;
  time_of_day = time;
}

-- The second candidate finds no room among the holdings.
abbrev calls : List (Call ℤ)
calls =
    handles false (moment (pos 50)) "A" (event "660")
    ∷ handles false (moment (pos 50)) "B" (event "35420")
    ∷ cycles (moment (pos 50)) (λ t. t) none none
    ∷ []

manager-IsManaged : IsManaged manager
manager-IsManaged = record {
  keyed = tt;
  named = tt;
  sized = omega arith;
  pool_keyed = tt;
  pool_sized = omega arith;
  held_in_pool = λ t held. held;
}

run-IsManaged_example : IsManaged (run calendar manager calls)
run-IsManaged_example = run-IsManaged calendar manager calls manager-IsManaged

second_is_stuck :
    (contains "035420" (run calendar manager calls).admission.candidate_pool ≡ true)
    × (contains "035420" (run calendar manager calls).holdings.holdings ≡ false)
unfolding run step cycle_once is_enabled handle_admission_event reloaded reload_enabled or_else
    safe_bool handle_enabled handle_event handled normalize_price_snapshot_candidate is_text
    handle_normalized ticker_raw pit_check ◌-ℤ◌ ◌*ℤ◌ any is_ticker admission_event admit_matched
    consider is_admissible is_cooling matched time_of match_admission_rules event_fields
    check_market_close check_ttl_expiry decided evaluate evaluate_all exit_reason held_for
    price_stop entry_fields entry_for get_holdings promote_to_holdings current_total_weight
    cycle_gated evaluated handle_gated promoted zfill text_of truthy is_in check_spike_resolved ◌+ℤ◌
    is_stale
second_is_stuck = (refl, refl)

-- At the close the only holding is given up, which makes room too late.
run_stuck_example :
    let m = run calendar manager calls in
    let m' = run calendar m (
      cycles (moment (pos 200)) (λ t. t) none none
      ∷ handles false (moment (pos 50)) "C" (event "35420")
      ∷ []) in
    (contains "035420" m'.admission.candidate_pool ≡ true)
    × (contains "035420" m'.holdings.holdings ≡ false)
run_stuck_example =
    run_stuck calendar "035420" (run calendar manager calls)
      (cycles (moment (pos 200)) (λ t. t) none none
        ∷ handles false (moment (pos 50)) "C" (event "35420")
        ∷ [])
      second_is_stuck
