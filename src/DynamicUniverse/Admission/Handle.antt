-- ===== src/DynamicUniverse/Admission/Handle.antt =====
-- `handle_event` and `remove_from_pool`. A call is made at one instant. The file of admissions is
-- written from the answers and is left out.
use flephant.Base.{
  String, Bool, true, false, not, ◌&&◌, Option, none, some, List, if◌then◌else◌, length, contains,
  lookup, insert, erase,
}
use flephant.Base.Int.{ℤ, pos, ◌-ℤ◌, ◌*ℤ◌, ltb_ℤ, leb_ℤ}
use flephant.Base.Result.{Result, ok, err}
use flephant.Python.Text.{zfill}
use flephant.Python.Calendar.{Calendar}
use flephant.Python.Value.{
  Value, Fields, Runtime, Raised, attribute_error, value_error, str, dict, get, get_or, nonempty,
  truthy, or_else, text_of,
}
use flephant.Utils.SafeCast.{is_in}
use flephant.DynamicUniverse.Admission.Types.{
  AdmissionEvent, AdmissionEngine, AdmissionError, pit_violation, raised,
}
use flephant.DynamicUniverse.Admission.Rules.{match_admission_rules}
use flephant.DynamicUniverse.Admission.Extract.{
  is_ticker, ticker_from_scope, payload_of, normalize_price_snapshot_candidate,
}

parsed_check : Option ℤ → ℤ → Option AdmissionError
parsed_check none now = some (raised value_error)
parsed_check (some instant) now = if leb_ℤ instant now then none else some pit_violation

module _ {F : Type 0} where
  -- whether the ticker left the pool less than the cooldown ago
  unfoldable pub is_cooling : ℤ → String → AdmissionEngine F → Bool
  is_cooling now ticker a = elim (lookup ticker a.cooldown_map) [
    | none ↦ false
    | some last_exit ↦ ltb_ℤ (now -ℤ last_exit) (a.cooldown_sec *ℤ pos 1000000)
  ]

  -- the tests of `handle_event` before the rules
  unfoldable pub is_admissible : ℤ → String → AdmissionEngine F → Bool
  unfolding is_cooling
  is_admissible now ticker a =
      not (is_in ticker a.trade_tickers)
      && is_in ticker a.watch_tickers
      && is_ticker ticker
      && not (is_cooling now ticker a)
      && not (contains ticker a.candidate_pool)

  -- `remove_from_pool`
  unfoldable pub remove_from_pool : ℤ → String → AdmissionEngine F → Bool × AdmissionEngine F
  remove_from_pool now raw a =
      let ticker = zfill 6 raw in
      if contains ticker a.candidate_pool
      then (
        true,
        record a {
          candidate_pool = erase ticker a.candidate_pool;
          cooldown_map = insert ticker now a.cooldown_map;
        },
      )
      else (false, a)

  -- `admission_event`
  unfoldable pub admission_event :
      Calendar → ℤ → String → String → List String → AdmissionEngine F → AdmissionEvent
  admission_event cal now fresh ticker matched_ids a = record {
    admission_event_id = fresh;
    ts = cal.render now;
    ticker = ticker;
    trigger_ids = matched_ids;
    ttl_sec = a.ttl_sec;
    admitted_at = cal.render now;
  }

  -- the end of `handle_event`: enough rules match, and the pool has room
  unfoldable pub admit_matched :
      Calendar
      → ℤ
      → String
      → String
      → List String
      → AdmissionEngine F
      → Option AdmissionEvent × AdmissionEngine F
  admit_matched cal now fresh ticker matched_ids a =
      let event = admission_event cal now fresh ticker matched_ids a in
      if ltb_ℤ (pos (length matched_ids)) a.min_trigger_count
      then (none, a)
      else if leb_ℤ a.candidate_pool_max (pos (length a.candidate_pool))
      then (none, a)
      else (some event, record a { candidate_pool = insert ticker event a.candidate_pool })

  unfoldable pub matched :
      Calendar
      → ℤ
      → String
      → String
      → AdmissionEngine F
      → Result Raised (List String)
      → Result AdmissionError (Option AdmissionEvent) × AdmissionEngine F
  matched cal now fresh ticker a (err e) = (err (raised e), a)
  matched cal now fresh ticker a (ok ids) =
      let (answer, a') = admit_matched cal now fresh ticker ids a in (ok answer, a')

module _ {F : Type 0} ⦃py : Runtime F⦄ where
  -- the ticker of an event: its own, or that of its scope or of its payload
  unfoldable pub ticker_raw : Fields F → Result Raised (Value F)
  ticker_raw event =
      if truthy (get "ticker" event)
      then ok (get "ticker" event)
      else if nonempty (ticker_from_scope (get "scope" event))
      then ok (str (ticker_from_scope (get "scope" event)))
      else (elim (payload_of event) [
        | dict payload ↦
            ok (or_else (get "ticker" payload) (str (ticker_from_scope (get "scope" payload))))
        | _ ↦ err attribute_error
      ])

  -- `event.get("occurred_at") or event.get("ts", "")`
  unfoldable pub time_of : Fields F → Value F
  time_of event = or_else (get "occurred_at" event) (get_or "ts" (str "") event)

  -- The guard on the time of an event; `pit_skip` is the switch of the tests in the environment.
  unfoldable pub pit_check : Calendar → Bool → ℤ → Value F → Option AdmissionError
  unfolding parsed_check
  pit_check cal pit_skip now (str s) =
      if not pit_skip && nonempty s then parsed_check (cal.parse s) now else none
  pit_check cal pit_skip now ts =
      if not pit_skip && truthy ts then some (raised attribute_error) else none

  -- the tests in their order; nothing is admitted where one of them fails
  unfoldable pub consider :
      Calendar
      → ℤ
      → String
      → String
      → Fields F
      → AdmissionEngine F
      → Result AdmissionError (Option AdmissionEvent) × AdmissionEngine F
  unfolding matched
  consider cal now fresh ticker event a =
      if is_admissible now ticker a
      then matched cal now fresh ticker a (match_admission_rules a.admission_rules event)
      else (ok none, a)

  unfoldable pub handle_normalized :
      Calendar
      → Bool
      → ℤ
      → String
      → AdmissionEngine F
      → Fields F
      → Result Raised (Value F)
      → Result AdmissionError (Option AdmissionEvent) × AdmissionEngine F
  handle_normalized cal pit_skip now fresh a event (err e) = (err (raised e), a)
  handle_normalized cal pit_skip now fresh a event (ok raw) =
      elim (pit_check cal pit_skip now (time_of event)) [
        | some error ↦ (err error, a)
        | none ↦ consider cal now fresh (zfill 6 (text_of raw)) event a
      ]

  unfoldable pub handled :
      Calendar
      → Bool
      → ℤ
      → String
      → AdmissionEngine F
      → Result Raised (Fields F)
      → Result AdmissionError (Option AdmissionEvent) × AdmissionEngine F
  handled cal pit_skip now fresh a (err e) = (err (raised e), a)
  handled cal pit_skip now fresh a (ok normal) =
      handle_normalized cal pit_skip now fresh a normal (ticker_raw normal)

  -- `handle_event`, at the instant `now`; `fresh` is the identifier that would be generated
  unfoldable pub handle_event :
      Calendar
      → Bool
      → ℤ
      → String
      → Fields F
      → AdmissionEngine F
      → Result AdmissionError (Option AdmissionEvent) × AdmissionEngine F
  handle_event cal pit_skip now fresh event a =
      handled cal pit_skip now fresh a (normalize_price_snapshot_candidate event)
