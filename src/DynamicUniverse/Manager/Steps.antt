-- ===== src/DynamicUniverse/Manager/Steps.antt =====
-- All calls keep the invariant of the manager.
use flephant.Base.{String, Bool, true, false, ◌≡◌, refl, Option, none, some, List, [], ◌∷◌}
use flephant.Base.Result.{Result, ok, err}
use flephant.Python.Calendar.{Calendar}
use flephant.Python.Value.{Fields, Runtime, Raised}
use flephant.DynamicUniverse.Gate.{is_enabled}
use flephant.DynamicUniverse.Admission.Types.{AdmissionEvent, AdmissionError}
use flephant.DynamicUniverse.Admission.Handle.{handle_event}
use flephant.DynamicUniverse.Manager.{
  Manager, Moment, WatchSnapshot, Call, handles, cycles, promoted, handle_enabled, handle_gated,
  handle_admission_event, evaluated, cycle_gated, cycle_once, step, run,
}
use flephant.DynamicUniverse.Manager.Invariant.{IsWellFormed, evaluate-IsWellFormed}
use flephant.DynamicUniverse.Manager.Admits.{
  IsCandidate, handle_event-IsSound, promote-IsWellFormed,
}

-- The invariant of a manager.
abbrev pub IsManaged : {F : Type 0} → Manager F → Type 0
IsManaged m = IsWellFormed m.holdings m.admission

module _ {F : Type 0} ⦃py : Runtime F⦄ (cal : Calendar) where
  promoted-IsManaged :
      (t : Moment F) (fresh : String) (m : Manager F)
      (r : Result AdmissionError (Option AdmissionEvent))
      → IsManaged m
      → ((e : AdmissionEvent) → r ≡ ok (some e) → IsCandidate e m.admission)
      → IsManaged (promoted cal t fresh m r).1
  unfolding promoted
  promoted-IsManaged t fresh m (err e) w c = w
  promoted-IsManaged t fresh m (ok none) w c = w
  promoted-IsManaged t fresh m (ok (some e)) w c =
      promote-IsWellFormed cal t.now fresh e m.holdings m.admission w (c e refl)

  enabled-IsManaged :
      (pit_skip : Bool) (t : Moment F) (fresh : String) (event : Fields F) (m : Manager F)
      → IsManaged m
      → IsManaged (handle_enabled cal pit_skip t fresh event m).1
  unfolding handle_enabled
  enabled-IsManaged pit_skip t fresh event m w =
      let r = handle_event cal pit_skip t.now fresh event m.admission in
      let (kept, candidate) =
        handle_event-IsSound cal m.holdings pit_skip t.now fresh event m.admission w in
      promoted-IsManaged t fresh (record m { admission = r.1 }) r.0 kept candidate

  handled-IsManaged :
      (pit_skip : Bool) (t : Moment F) (fresh : String) (event : Fields F) (m : Manager F)
      (r : Result Raised Bool)
      → IsManaged m
      → IsManaged (handle_gated cal pit_skip t fresh event m r).1
  unfolding handle_gated
  handled-IsManaged pit_skip t fresh event m (err e) w = w
  handled-IsManaged pit_skip t fresh event m (ok false) w = w
  handled-IsManaged pit_skip t fresh event m (ok true) w =
      enabled-IsManaged pit_skip t fresh event m w

  cycled-IsManaged :
      (t : Moment F) (fresh : String → String) (fetched : Option (WatchSnapshot F))
      (trigger_state : Option (Fields F)) (m : Manager F) (r : Result Raised Bool)
      → IsManaged m
      → IsManaged (cycle_gated cal t fresh fetched trigger_state m r).1
  unfolding cycle_gated evaluated
  cycled-IsManaged t fresh fetched trigger_state m (err e) w = w
  cycled-IsManaged t fresh fetched trigger_state m (ok false) w = w
  cycled-IsManaged t fresh fetched trigger_state m (ok true) w =
      evaluate-IsWellFormed cal fresh m.exit _ trigger_state t.now t.time_of_day m.holdings
        m.admission w

  step-IsManaged : (m : Manager F) (c : Call F) → IsManaged m → IsManaged (step cal m c)
  unfolding step handle_admission_event cycle_once
  step-IsManaged m (handles pit_skip t fresh event) w =
      let r = is_enabled t.monotonic t.content m.gate in
      handled-IsManaged pit_skip t fresh event (record m { gate = r.1 }) r.0 w
  step-IsManaged m (cycles t fresh fetched trigger_state) w =
      let r = is_enabled t.monotonic t.content m.gate in
      cycled-IsManaged t fresh fetched trigger_state (record m { gate = r.1 }) r.0 w

  -- If no ticker is held twice or is twice a candidate, the holdings and the pool are within their
  -- sizes, every holding stands under its own padded ticker, and every ticker held is a candidate,
  -- then all of that holds after any events and cycles, enabled or not, raising or not.
  pub run-IsManaged : (m : Manager F) (cs : List (Call F)) → IsManaged m → IsManaged (run cal m cs)
  unfolding run
  run-IsManaged m [] w = w
  run-IsManaged m (c ∷ cs) w = run-IsManaged (step cal m c) cs (step-IsManaged m c w)
