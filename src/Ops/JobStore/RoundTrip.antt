-- ===== src/Ops/JobStore/RoundTrip.antt =====
-- What is written of a run is read back.
use flephant.Base.{
  String, Bool, true, false, ◌≡◌, refl, ap, ◌∙◌, Option, some, [], ◌∷◌, ◌++◌, str_eq, eq_refl,
  arith, keep, All, lookup, contains, insert, if_cases,
}
use flephant.Python.Text.{text_lt}
use flephant.Python.Value.{Value, dict, list, nil, end, nonempty}
use flephant.Ops.JobStore.{
  Json, Row, Table, Start, Finish, JobRun, bit, truth, newest, selected, blockers_or, json_load,
  loaded_or, started_row, create_run, finished_row, finish_run, row_to_dict, latest_run,
}

truth-bit : (b : Bool) → truth (bit b) ≡ b
unfolding truth bit
truth-bit true = refl
truth-bit false = refl

insert_new :
    (k : String) (r : Row) (rows : Table)
    → contains k rows ≡ false
    → insert k r rows ≡ rows ++ (k, r) ∷ []
insert_new k r [] h = refl
insert_new k r ((j, w) ∷ rows) h = ground (arith, h, insert_new k r rows)

insert_last :
    (k : String) (r q : Row) (rows : Table)
    → contains k rows ≡ false
    → insert k q (rows ++ (k, r) ∷ []) ≡ rows ++ (k, q) ∷ []
insert_last k r q [] h = ground (arith, eq_refl k)
insert_last k r q ((j, w) ∷ rows) h = ground (arith, h, insert_last k r q rows)

lookup_last :
    (k : String) (r : Row) (rows : Table)
    → contains k rows ≡ false
    → lookup k (rows ++ (k, r) ∷ []) ≡ some r
lookup_last k r [] h = ground (arith, eq_refl k)
lookup_last k r ((j, w) ∷ rows) h = ground (arith, h, lookup_last k r rows)

-- A run of that target started before.
abbrev pub StartsBefore : String → String → String × Row → Type 0
StartsBefore target started e =
    str_eq e.1.target_end_date target ≡ true → text_lt e.1.started_at started ≡ true

newest_last :
    (target : String) (x : String × Row) (rows : Table)
    → str_eq x.1.target_end_date target ≡ true
    → All (StartsBefore target x.1.started_at) rows
    → newest (selected (some target) (rows ++ x ∷ [])) ≡ some x
unfolding newest selected keep
newest_last target x [] t h = ground (arith, t)
newest_last target x (e ∷ rows) t h =
    if_cases (λ (xs : Table). newest xs ≡ some x) (str_eq e.1.target_end_date target)
      (λ same. ground (arith, h.0 same, newest_last target x rows t h.1))
      (λ other. newest_last target x rows t h.1)

module _ {F : Type 0} (json : Json F) where
  -- A value that is dumped as a text which is not empty and is loaded as what it was.
  abbrev pub IsRestored : Value F → Type 0
  IsRestored v = (json.load (json.dump v) ≡ some v) × (nonempty (json.dump v) ≡ true)

  json_load-dump :
      (v default : Value F) → IsRestored v → json_load json (some (json.dump v)) default ≡ v
  unfolding json_load loaded_or
  json_load-dump v default h = rw (h.1, h.0) refl

  -- the run as it was started and finished
  abbrev pub completed : String → Start F → Finish F → JobRun F
  completed run_id s f = record {
    run_id = run_id;
    target_end_date = s.target_end_date;
    bundle_id = s.bundle_id;
    status = f.status;
    dry_run = s.dry_run;
    run_prelive = s.run_prelive;
    started_at = s.started;
    finished_at = some f.finished;
    report_path = f.report_path;
    blockers = blockers_or f.blockers;
    decision = dict s.decision;
    update_report = dict f.update_report;
    registry_mutated = f.registry_mutated;
    live_trading_allowed = f.live_trading_allowed;
  }

  -- What the run dumps is restored.
  abbrev pub AreRestored : Start F → Finish F → Type 0
  AreRestored s f =
      IsRestored (blockers_or f.blockers)
      × IsRestored (dict s.decision)
      × IsRestored (dict f.update_report)

  read_back :
      (run_id : String) (s : Start F) (f : Finish F)
      → AreRestored s f
      → row_to_dict json (run_id, finished_row json f (started_row json s)) ≡ completed run_id s f
  unfolding row_to_dict finished_row started_row
  read_back run_id s f h =
      rw
        (
          truth-bit s.dry_run,
          truth-bit s.run_prelive,
          truth-bit f.registry_mutated,
          truth-bit f.live_trading_allowed,
          json_load-dump (blockers_or f.blockers) (list nil) h.0,
          json_load-dump (dict s.decision) (dict end) h.1,
          json_load-dump (dict f.update_report) (dict end) h.2,
        )
        refl

  created :
      (rows : Table) (run_id : String) (s : Start F)
      → contains run_id rows ≡ false
      → (create_run json run_id s rows).1 ≡ rows ++ (run_id, started_row json s) ∷ []
  unfolding create_run
  created rows run_id s new = ground (arith, new, insert_new run_id (started_row json s) rows new)

  finished_last :
      (rows : Table) (run_id : String) (s : Start F) (f : Finish F)
      → contains run_id rows ≡ false
      → finish_run json run_id f (rows ++ (run_id, started_row json s) ∷ [])
        ≡ rows ++ (run_id, finished_row json f (started_row json s)) ∷ []
  unfolding finish_run
  finished_last rows run_id s f new =
      let r = started_row json s in
      ground (
        arith,
        lookup_last run_id r rows new,
        insert_last run_id r (finished_row json f r) rows new,
      )

  latest-newest :
      (target : Option String) (rows : Table) (x : String × Row)
      → newest (selected target rows) ≡ some x
      → latest_run json target rows ≡ some (row_to_dict json x)
  unfolding latest_run
  latest-newest target rows x h = ground (arith, h)

  latest_of :
      (run_id : String) (s : Start F) (f : Finish F) (rows : Table)
      → AreRestored s f
      → All (StartsBefore s.target_end_date s.started) rows
      → latest_run json
          (some s.target_end_date)
          (rows ++ (run_id, finished_row json f (started_row json s)) ∷ [])
        ≡ some (completed run_id s f)
  unfolding finished_row started_row
  latest_of run_id s f rows restored before =
      let x : String × Row = (run_id, finished_row json f (started_row json s)) in
      latest-newest (some s.target_end_date) (rows ++ x ∷ []) x
        (newest_last s.target_end_date x rows (ground (arith, eq_refl s.target_end_date)) before)
      ∙ ap some (read_back run_id s f restored)

  -- A run of a new identifier that starts after all others of its target, and is finished, is the
  -- latest run of the target, and all that was given at its start and its end is read back as it was,
  -- where JSON restores its decision, its blockers and its report.
  pub latest_run-finish_run :
      (rows : Table) (run_id : String) (s : Start F) (f : Finish F)
      → AreRestored s f
      → contains run_id rows ≡ false
      → All (StartsBefore s.target_end_date s.started) rows
      → latest_run json
          (some s.target_end_date)
          (finish_run json run_id f (create_run json run_id s rows).1)
        ≡ some (completed run_id s f)
  latest_run-finish_run rows run_id s f restored new before =
      ap (λ t. latest_run json (some s.target_end_date) (finish_run json run_id f t))
        (created rows run_id s new)
      ∙ ap (latest_run json (some s.target_end_date)) (finished_last rows run_id s f new)
      ∙ latest_of run_id s f rows restored before
