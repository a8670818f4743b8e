-- ===== src/DynamicUniverse/Admission/Safety.antt =====
-- What an admission says of the engine that made it.
use flephant.Base.{
  String, Bool, true, false, ◌≡◌, none, some, List, arith, length, contains, insert,
}
use flephant.Base.Int.{ℤ, pos, ◌≤ℤ◌, ◌<ℤ◌}
use flephant.Base.Result.{ok}
use flephant.Python.Text.{zfill}
use flephant.Python.Calendar.{Calendar}
use flephant.Python.Value.{Fields, Runtime}
use flephant.Utils.SafeCast.{is_in}
use flephant.DynamicUniverse.Admission.Types.{AdmissionEvent, AdmissionEngine}
use flephant.DynamicUniverse.Admission.Extract.{normalize_price_snapshot_candidate}
use flephant.DynamicUniverse.Admission.Handle.{
  is_cooling, is_admissible, admission_event, time_of, pit_check, handle_event,
}
use flephant.DynamicUniverse.Admission.Cases.{Handled, Passed, admitted, handle_event_cases}

module _ {F : Type 0} ⦃py : Runtime F⦄ (cal : Calendar) (pit_skip : Bool) (now : ℤ) (fresh : String)
    (event : Fields F) (a : AdmissionEngine F) where
  abbrev IsGuarded : Handled F → Type 0
  IsGuarded r =
      (e : AdmissionEvent)
      → r.0 ≡ ok (some e)
      → ((normal : Fields F) × (normalize_price_snapshot_candidate event ≡ ok normal)
          × (pit_check cal pit_skip now (time_of normal) ≡ none))
        × (is_in e.ticker a.watch_tickers ≡ true)
        × (is_in e.ticker a.trade_tickers ≡ false)
        × (contains e.ticker a.candidate_pool ≡ false)
        × (is_cooling now e.ticker a ≡ false)
        × (pos (length a.candidate_pool) <ℤ a.candidate_pool_max)
        × (a.min_trigger_count ≤ℤ pos (length e.trigger_ids))
        × (r.1.candidate_pool ≡ insert e.ticker e a.candidate_pool)

  admitted-IsGuarded :
      (normal : Fields F) (raw : String) (ids : List String)
      → Passed cal pit_skip now fresh event a normal (zfill 6 raw) ids
      → IsGuarded (admitted cal pit_skip now fresh event a (zfill 6 raw) ids)
  unfolding is_admissible admission_event
  admitted-IsGuarded normal raw ids (n, timely, admissible, enough, room) e k = (
    (normal, n, timely),
    ground (arith, admissible, k),
    ground (arith, admissible, k),
    ground (arith, admissible, k),
    ground (arith, admissible, k),
    ground (arith, room),
    ground (arith, enough, k),
    ground (arith, k),
  )

  -- If an event is admitted, its time is not in the future (or it has none, or the switch of the
  -- tests is on), and the ticker is of the watch universe, not of the traded one, not in the pool and
  -- not within its cooldown; the pool had room, enough rules match, and the pool has the event.
  pub handle_event-IsGuarded :
      (e : AdmissionEvent)
      → (handle_event cal pit_skip now fresh event a).0 ≡ ok (some e)
      → ((normal : Fields F) × (normalize_price_snapshot_candidate event ≡ ok normal)
          × (pit_check cal pit_skip now (time_of normal) ≡ none))
        × (is_in e.ticker a.watch_tickers ≡ true)
        × (is_in e.ticker a.trade_tickers ≡ false)
        × (contains e.ticker a.candidate_pool ≡ false)
        × (is_cooling now e.ticker a ≡ false)
        × (pos (length a.candidate_pool) <ℤ a.candidate_pool_max)
        × (a.min_trigger_count ≤ℤ pos (length e.trigger_ids))
        × ((handle_event cal pit_skip now fresh event a).1.candidate_pool
            ≡ insert e.ticker e a.candidate_pool)
  handle_event-IsGuarded =
      handle_event_cases cal pit_skip now fresh event a IsGuarded (λ x e k. cc) (λ e k. cc)
        admitted-IsGuarded
