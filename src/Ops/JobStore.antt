-- ===== src/Ops/JobStore.antt =====
-- new/src/ops/post_close_job_store.py: the history of the jobs after the close, in one table of SQLite.
-- The table is a dict by its primary key, in the order of insertion; what the SQL text of each method
-- says is done on it. JSON is a parameter. Of runs with the same start, which SQLite may give in any
-- order, the first is the latest here.
pub mod Refinement
pub mod RoundTrip
mod Examples
use flephant.Base.{
  ℕ, String, Bool, true, false, not, ◌&&◌, Option, none, some, List, [], ◌∷◌, ◌==◌, str_eq,
  if◌then◌else◌, keep, any, map, Dict, lookup, contains, insert,
}
use flephant.Base.Result.{Result, ok, err}
use flephant.Python.Text.{text_lt}
use flephant.Python.Value.{Value, Items, Fields, str, list, dict, nil, cons, end, nonempty}

-- `json.dumps` and `json.loads`; `none` for JSONDecodeError.
pub record Json (F : Type 0) : Type 0 where
  pub dump : Value F → String
  pub load : String → Option (Value F)

-- A row of post_close_job_runs, without its key.
pub record Row : Type 0 where
  pub target_end_date : String
  pub bundle_id : Option String
  pub status : String
  pub dry_run : ℕ
  pub run_prelive : ℕ
  pub started_at : String
  pub finished_at : Option String
  pub report_path : Option String
  pub blockers_json : Option String
  pub decision_json : Option String
  pub update_report_json : Option String
  pub registry_mutated : ℕ
  pub live_trading_allowed : ℕ

abbrev pub Table : Type 0
Table = Dict Row

-- The arguments of `create_run` and of `finish_run`; times are already texts.
pub record Start (F : Type 0) : Type 0 where
  pub target_end_date : String
  pub bundle_id : Option String
  pub dry_run : Bool
  pub run_prelive : Bool
  pub decision : Fields F
  pub started : String

pub record Finish (F : Type 0) : Type 0 where
  pub status : String
  pub report_path : Option String
  pub blockers : Option (List String)
  pub update_report : Fields F
  pub registry_mutated : Bool
  pub live_trading_allowed : Bool
  pub finished : String

-- What `_row_to_dict` gives.
pub record JobRun (F : Type 0) : Type 0 where
  pub run_id : String
  pub target_end_date : String
  pub bundle_id : Option String
  pub status : String
  pub dry_run : Bool
  pub run_prelive : Bool
  pub started_at : String
  pub finished_at : Option String
  pub report_path : Option String
  pub blockers : Value F
  pub decision : Value F
  pub update_report : Value F
  pub registry_mutated : Bool
  pub live_trading_allowed : Bool

-- `sqlite3.IntegrityError`
pub data StoreError : Type 0 where
  integrity_error : StoreError

-- `int(bool(b))`
unfoldable pub bit : Bool → ℕ
bit true = 1
bit false = 0

-- `bool(n)`
unfoldable pub truth : ℕ → Bool
truth n = not (n == 0)

-- the row of the greatest start
unfoldable pub newest : List (String × Row) → Option (String × Row)
newest [] = none
newest (r ∷ rs) = elim (newest rs) [
  | none ↦ some r
  | some s ↦ if text_lt r.1.started_at s.1.started_at then some s else some r
]

-- the rows of a target, or all
unfoldable pub selected : Option String → Table → Table
selected none rows = rows
selected (some target) rows = keep (λ e. str_eq e.1.target_end_date target) rows

-- `has_passed_target`
unfoldable pub has_passed_target : String → Table → Bool
has_passed_target target rows =
    any (λ e. str_eq e.1.target_end_date target && str_eq e.1.status "PASS") rows

module _ {F : Type 0} where
  unfoldable pub texts : List String → Items F
  texts [] = nil
  texts (s ∷ ss) = cons (str s) (texts ss)

  -- `blockers or []`
  unfoldable pub blockers_or : Option (List String) → Value F
  unfolding texts
  blockers_or none = list nil
  blockers_or (some ss) = list (texts ss)

module _ {F : Type 0} (json : Json F) where
  loaded_or : Value F → Option (Value F) → Value F
  loaded_or default none = default
  loaded_or default (some v) = v

  -- `_json_load`
  unfoldable pub json_load : Option String → Value F → Value F
  unfolding loaded_or
  json_load none default = default
  json_load (some text) default =
      if nonempty text then loaded_or default (json.load text) else default

  unfoldable pub started_row : Start F → Row
  started_row s = record {
    target_end_date = s.target_end_date;
    bundle_id = s.bundle_id;
    status = "RUNNING";
    dry_run = bit s.dry_run;
    run_prelive = bit s.run_prelive;
    started_at = s.started;
    finished_at = none;
    report_path = none;
    blockers_json = none;
    decision_json = some (json.dump (dict s.decision));
    update_report_json = none;
    registry_mutated = 0;
    live_trading_allowed = 0;
  }

  -- `create_run`, with the identifier that was drawn
  unfoldable pub create_run : String → Start F → Table → Result StoreError String × Table
  create_run run_id s rows =
      if contains run_id rows
      then (err integrity_error, rows)
      else (ok run_id, insert run_id (started_row s) rows)

  unfoldable pub finished_row : Finish F → Row → Row
  finished_row f r = record r {
    status = f.status;
    finished_at = some f.finished;
    report_path = f.report_path;
    blockers_json = some (json.dump (blockers_or f.blockers));
    update_report_json = some (json.dump (dict f.update_report));
    registry_mutated = bit f.registry_mutated;
    live_trading_allowed = bit f.live_trading_allowed;
  }

  -- `finish_run`
  unfoldable pub finish_run : String → Finish F → Table → Table
  finish_run run_id f rows = elim (lookup run_id rows) [
    | none ↦ rows
    | some r ↦ insert run_id (finished_row f r) rows
  ]

  -- `_row_to_dict`
  unfoldable pub row_to_dict : String × Row → JobRun F
  row_to_dict (run_id, r) = record {
    run_id = run_id;
    target_end_date = r.target_end_date;
    bundle_id = r.bundle_id;
    status = r.status;
    dry_run = truth r.dry_run;
    run_prelive = truth r.run_prelive;
    started_at = r.started_at;
    finished_at = r.finished_at;
    report_path = r.report_path;
    blockers = json_load r.blockers_json (list nil);
    decision = json_load r.decision_json (dict end);
    update_report = json_load r.update_report_json (dict end);
    registry_mutated = truth r.registry_mutated;
    live_trading_allowed = truth r.live_trading_allowed;
  }

  -- `latest_run`
  unfoldable pub latest_run : Option String → Table → Option (JobRun F)
  latest_run target rows = elim (newest (selected target rows)) [
    | none ↦ none
    | some row ↦ some (row_to_dict row)
  ]

-- The calls that change the table.
pub data Call (F : Type 0) : Type 0 where
  creates : String → Start F → Call F
  finishes : String → Finish F → Call F

module _ {F : Type 0} (json : Json F) where
  unfoldable pub step : Table → Call F → Table
  step rows (creates run_id s) = (create_run json run_id s rows).1
  step rows (finishes run_id f) = finish_run json run_id f rows

  unfoldable pub run : Table → List (Call F) → Table
  run rows [] = rows
  run rows (c ∷ cs) = run (step rows c) cs
