-- ===== src/Ops/JobStore/Examples.antt =====
-- Two days of runs; JSON knows three texts.
use flephant.Base.{
  String, true, false, ◌≡◌, refl, ◌↔◌, none, some, List, [], ◌∷◌, str_eq, if◌then◌else◌, contains,
  All,
}
use flephant.Base.Int.{ℤ}
use flephant.Python.Text.{text_lt}
use flephant.Python.Value.{Value, list, dict, nil, end}
use flephant.Ops.JobStore.{
  Json, Table, Start, Finish, blockers_or, started_row, create_run, finish_run, has_passed_target,
  latest_run, Call, creates, finishes, run,
}
use flephant.Ops.JobStore.Refinement.{history_of, history_run, IsPassed, run-refines}
use flephant.Ops.JobStore.RoundTrip.{StartsBefore, completed, AreRestored, latest_run-finish_run}

abbrev dump_text : Value ℤ → String
dump_text (list nil) = "[]"
dump_text (dict end) = "{}"
dump_text _ = "{...}"

abbrev json : Json ℤ
json = record {
  dump = dump_text;
  load = λ s.
      if str_eq s "[]" then some (list nil) else if str_eq s "{}" then some (dict end) else none;
}

abbrev start : String → Start ℤ
start time = record {
  target_end_date = "2026-05-08";
  bundle_id = none;
  dry_run = false;
  run_prelive = true;
  decision = end;
  started = time;
}

abbrev finish_with : String → Finish ℤ
finish_with status = record {
  status = status;
  report_path = some "report.json";
  blockers = none;
  update_report = end;
  registry_mutated = true;
  live_trading_allowed = false;
  finished = "2026-05-08T19:00";
}

-- The second run takes an identifier that is taken; the last one ends a run that is not there.
abbrev calls : List (Call ℤ)
calls =
    creates "PCR-1" (start "2026-05-08T18:00")
    ∷ creates "PCR-1" (start "2026-05-08T18:05")
    ∷ finishes "PCR-1" (finish_with "PASS")
    ∷ finishes "PCR-9" (finish_with "PASS")
    ∷ []

run-refines_example :
    (history_of (run json [] calls) ≡ history_run json (λ id. none) calls)
    × ((target : String)
        → (has_passed_target target (run json [] calls) ≡ true)
          ↔ IsPassed target (history_run json (λ id. none) calls))
run-refines_example = run-refines json calls

abbrev rows : Table
rows = ("PCR-1", started_row json (start "2026-05-08T18:00")) ∷ []

restored : AreRestored json (start "2026-05-08T18:30") (finish_with "BLOCKED")
unfolding blockers_or
restored = ((refl, refl), (refl, refl), (refl, refl))

new_run : contains "PCR-2" rows ≡ false
new_run = refl

starts_last : All (StartsBefore "2026-05-08" "2026-05-08T18:30") rows
unfolding text_lt started_row
starts_last = (λ same. refl, tt)

latest_run-finish_run_example :
    latest_run json (some "2026-05-08") (
      finish_run json "PCR-2"
        (finish_with "BLOCKED")
        (create_run json "PCR-2" (start "2026-05-08T18:30") rows).1)
    ≡ some (completed json "PCR-2" (start "2026-05-08T18:30") (finish_with "BLOCKED"))
latest_run-finish_run_example =
    latest_run-finish_run json rows "PCR-2" (start "2026-05-08T18:30") (finish_with "BLOCKED")
      restored new_run starts_last
