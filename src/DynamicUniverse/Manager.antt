-- ===== src/DynamicUniverse/Manager.antt =====
-- new/src/dynamic_universe/manager.py: the gate, the engine of admissions, the holdings and the engine
-- of exits together. An exception of a part is caught; what the part changed before it stays. The
-- fetched snapshot is an argument, `none` where the fetch raised. The files of cycles and of the
-- shutdown are written from the answers and are left out.
pub mod Invariant
pub mod Admits
pub mod Steps
pub mod Stuck
use flephant.Base.{
  ℕ, String, Bool, true, false, Option, none, some, List, [], ◌∷◌, if◌then◌else◌, length, Dict,
  insert,
}
use flephant.Base.Int.{ℤ}
use flephant.Base.Result.{Result, ok, err}
use flephant.Python.Calendar.{Calendar}
use flephant.Python.Value.{Value, Fields, Runtime, Raised, str, get, nonempty}
use flephant.DynamicUniverse.Gate.{Gate, is_enabled}
use flephant.DynamicUniverse.Admission.Types.{
  AdmissionEvent, AdmissionEngine, AdmissionError, event_fields,
}
use flephant.DynamicUniverse.Admission.Handle.{handle_event}
use flephant.DynamicUniverse.Holdings.{
  Holding, HoldingsManager, ExitEvent, get_holdings, promote_to_holdings,
}
use flephant.DynamicUniverse.Exit.{ExitEngine, Evaluated, evaluate}

pub record Manager (F : Type 0) : Type 0 where
  pub gate : Gate F
  pub admission : AdmissionEngine F
  pub holdings : HoldingsManager F
  pub exit : ExitEngine F

-- What the calls of one moment read: the monotonic clock, the content of the configuration file, the
-- instant and the time of day.
pub record Moment (F : Type 0) : Type 0 where
  pub monotonic : F
  pub content : Option (Value F)
  pub now : ℤ
  pub time_of_day : ℤ

pub record WatchSnapshot (F : Type 0) : Type 0 where
  pub watch_snapshot_id : String
  pub snapshots : List (Fields F)

-- The result of a cycle, without its identifier and time.
pub record Cycle (F : Type 0) : Type 0 where
  pub watch_snapshot_id : String
  pub candidate_pool_size : ℕ
  pub holdings_size : ℕ
  pub exit_events : List (ExitEvent F)
  pub enabled : Bool

module _ {F : Type 0} where
  -- one item of the map from tickers to snapshots; tickers are texts
  add_snapshot : Fields F → Value F → Dict (Fields F) → Dict (Fields F)
  add_snapshot s (str ticker) d = if nonempty ticker then insert ticker s d else d
  add_snapshot s _ d = d

  snapshot_into : Dict (Fields F) → List (Fields F) → Dict (Fields F)
  unfolding add_snapshot
  snapshot_into d [] = d
  snapshot_into d (s ∷ ss) = snapshot_into (add_snapshot s (get "ticker" s) d) ss

  -- the identifier and the prices by ticker; none where the fetch raised
  snapshot_id : Option (WatchSnapshot F) → String
  snapshot_id none = ""
  snapshot_id (some w) = w.watch_snapshot_id

  snapshot_map : Option (WatchSnapshot F) → Dict (Fields F)
  unfolding snapshot_into
  snapshot_map none = []
  snapshot_map (some w) = snapshot_into [] w.snapshots

  disabled_cycle : Cycle F
  disabled_cycle = record {
    watch_snapshot_id = "";
    candidate_pool_size = 0;
    holdings_size = 0;
    exit_events = [];
    enabled = false;
  }

  -- the events of an evaluation, none where it raised
  events_of : Result Raised (List (ExitEvent F)) → List (ExitEvent F)
  events_of (ok events) = events
  events_of (err e) = []

  -- the manager after an evaluation
  unfoldable pub evaluated : Manager F → Evaluated F → Manager F
  evaluated m (answer, h, a) = record m { holdings = h; admission = a }

  unfoldable pub cycle_of : Option (WatchSnapshot F) → Evaluated F → Cycle F
  unfolding snapshot_id events_of
  cycle_of fetched (answer, h, a) = record {
    watch_snapshot_id = snapshot_id fetched;
    candidate_pool_size = length a.candidate_pool;
    holdings_size = length (get_holdings h);
    exit_events = events_of answer;
    enabled = true;
  }

module _ {F : Type 0} ⦃py : Runtime F⦄ (cal : Calendar) where
  -- the promotion of what was admitted
  unfoldable pub promoted :
      Moment F
      → String
      → Manager F
      → Result AdmissionError (Option AdmissionEvent)
      → Option (Holding F) × Manager F
  promoted t fresh m (err e) = (none, m)
  promoted t fresh m (ok none) = (none, m)
  promoted t fresh m (ok (some event)) =
      let (entry, h) = promote_to_holdings cal t.now fresh (event_fields event) m.holdings in
      (entry, record m { holdings = h })

  unfoldable pub handle_enabled :
      Bool → Moment F → String → Fields F → Manager F → Option (Holding F) × Manager F
  unfolding promoted
  handle_enabled pit_skip t fresh event m =
      let (answer, a) = handle_event cal pit_skip t.now fresh event m.admission in
      promoted t fresh (record m { admission = a }) answer

  unfoldable pub handle_gated :
      Bool
      → Moment F
      → String
      → Fields F
      → Manager F
      → Result Raised Bool
      → Result Raised (Option (Holding F)) × Manager F
  handle_gated pit_skip t fresh event m (err e) = (err e, m)
  handle_gated pit_skip t fresh event m (ok false) = (ok none, m)
  handle_gated pit_skip t fresh event m (ok true) =
      let (entry, m') = handle_enabled pit_skip t fresh event m in (ok entry, m')

  -- `handle_admission_event`
  unfoldable pub handle_admission_event :
      Bool
      → Moment F
      → String
      → Fields F
      → Manager F
      → Result Raised (Option (Holding F)) × Manager F
  unfolding handle_gated
  handle_admission_event pit_skip t fresh event m =
      let (answer, g, log) = is_enabled t.monotonic t.content m.gate in
      handle_gated pit_skip t fresh event (record m { gate = g }) answer

  unfoldable pub cycle_gated :
      Moment F
      → (String → String)
      → Option (WatchSnapshot F)
      → Option (Fields F)
      → Manager F
      → Result Raised Bool
      → Result Raised (Cycle F) × Manager F
  unfolding snapshot_map disabled_cycle evaluated cycle_of
  cycle_gated t fresh fetched trigger_state m (err e) = (err e, m)
  cycle_gated t fresh fetched trigger_state m (ok false) = (ok disabled_cycle, m)
  cycle_gated t fresh fetched trigger_state m (ok true) =
      let r =
        evaluate cal fresh m.exit (snapshot_map fetched) trigger_state t.now t.time_of_day
          m.holdings m.admission in
      (ok (cycle_of fetched r), evaluated m r)

  -- `cycle_once`
  unfoldable pub cycle_once :
      Moment F
      → (String → String)
      → Option (WatchSnapshot F)
      → Option (Fields F)
      → Manager F
      → Result Raised (Cycle F) × Manager F
  unfolding cycle_gated
  cycle_once t fresh fetched trigger_state m =
      let (answer, g, log) = is_enabled t.monotonic t.content m.gate in
      cycle_gated t fresh fetched trigger_state (record m { gate = g }) answer

-- The calls of the manager.
pub data Call (F : Type 0) : Type 0 where
  handles : Bool → Moment F → String → Fields F → Call F
  cycles : Moment F → (String → String) → Option (WatchSnapshot F) → Option (Fields F) → Call F

module _ {F : Type 0} ⦃py : Runtime F⦄ (cal : Calendar) where
  unfoldable pub step : Manager F → Call F → Manager F
  step m (handles pit_skip t fresh event) = (handle_admission_event cal pit_skip t fresh event m).1
  step m (cycles t fresh fetched trigger_state) = (cycle_once cal t fresh fetched trigger_state m).1

  unfoldable pub run : Manager F → List (Call F) → Manager F
  run m [] = m
  run m (c ∷ cs) = run (step m c) cs
