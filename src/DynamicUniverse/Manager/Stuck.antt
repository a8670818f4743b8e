-- ===== src/DynamicUniverse/Manager/Stuck.antt =====
-- A candidate whose promotion was refused stays a candidate for ever, and is never held.
use flephant.Base.{
  String, Bool, true, false, ◌≡◌, refl, subst, Option, none, some, List, [], ◌∷◌, arith, str_eq,
  eq_iff, contains, insert, lookup-insert, lookup-erase_ne,
}
use flephant.Base.Int.{ℤ}
use flephant.Base.Result.{Result, ok, err}
use flephant.Python.Text.{zfill}
use flephant.Python.Calendar.{Calendar}
use flephant.Python.Value.{Fields, Runtime, Raised}
use flephant.DynamicUniverse.Gate.{is_enabled}
use flephant.DynamicUniverse.Admission.Types.{
  AdmissionEvent, AdmissionEngine, AdmissionError, event_fields,
}
use flephant.DynamicUniverse.Admission.Handle.{
  is_admissible, admission_event, remove_from_pool, handle_event,
}
use flephant.DynamicUniverse.Admission.Cases.{Handled, handle_event_cases}
use flephant.DynamicUniverse.Holdings.{
  HoldingsManager, ExitReason, ExitEvent, remove, entry_for, promote_to_holdings,
}
use flephant.DynamicUniverse.Holdings.Cases.{promote_cases}
use flephant.Python.Padding.{zfill-zfill}
use flephant.DynamicUniverse.Exit.Keeps.{evaluate_keeps}
use flephant.DynamicUniverse.Manager.{
  Manager, Moment, WatchSnapshot, Call, handles, cycles, promoted, handle_enabled, handle_gated,
  handle_admission_event, evaluated, cycle_gated, cycle_once, step, run,
}

module _ {F : Type 0} (k : String) where
  -- The ticker is a candidate and is not held.
  abbrev pub IsStuck : HoldingsManager F → AdmissionEngine F → Type 0
  IsStuck h a = (contains k a.candidate_pool ≡ true) × (contains k h.holdings ≡ false)

  exit-IsStuck :
      (cal : Calendar) (now : ℤ) (fresh raw : String) (reason : ExitReason) (h : HoldingsManager F)
      (a : AdmissionEngine F) (event : ExitEvent F)
      → IsStuck h a
      → (remove cal now fresh raw reason h).0 ≡ some event
      → IsStuck (remove cal now fresh raw reason h).1 (remove_from_pool now raw a).1
  unfolding remove remove_from_pool
  exit-IsStuck cal now fresh raw reason h a event w e = (
    ground (
      arith,
      w.0,
      w.1,
      e,
      eq_iff (zfill 6 raw) k,
      lookup-erase_ne (zfill 6 raw) k a.candidate_pool,
    ),
    ground (arith, w.1, e, eq_iff (zfill 6 raw) k, lookup-erase_ne (zfill 6 raw) k h.holdings),
  )

module _ {F : Type 0} ⦃py : Runtime F⦄ (cal : Calendar) (k : String) where
  promote-IsStuck :
      (now : ℤ) (fresh : String) (e : AdmissionEvent) (h : HoldingsManager F)
      → str_eq (zfill 6 e.ticker) k ≡ false
      → contains k h.holdings ≡ false
      → contains k (promote_to_holdings cal now fresh (event_fields e) h).1.holdings ≡ false
  promote-IsStuck now fresh e h other w =
      promote_cases cal now fresh e h (λ r. contains k r.1.holdings ≡ false) w
        λ valid new room. ground (
          arith,
          other,
          w,
          lookup-insert (zfill 6 e.ticker) k
              (entry_for cal now fresh (zfill 6 e.ticker) (event_fields e) h) h.holdings,
        )

  -- The engine keeps the candidate, and what it admits is another ticker.
  abbrev IsSound : Handled F → Type 0
  IsSound r =
      (contains k r.1.candidate_pool ≡ true)
      × ((e : AdmissionEvent) → r.0 ≡ ok (some e) → str_eq (zfill 6 e.ticker) k ≡ false)

  added_other :
      (now : ℤ) (raw : String) (e : AdmissionEvent) (a : AdmissionEngine F)
      → contains k a.candidate_pool ≡ true
      → is_admissible now (zfill 6 raw) a ≡ true
      → (contains k (insert (zfill 6 raw) e a.candidate_pool) ≡ true)
        × (str_eq (zfill 6 (zfill 6 raw)) k ≡ false)
  unfolding is_admissible
  added_other now raw e a w p = (
    ground (arith, w, p, lookup-insert (zfill 6 raw) k e a.candidate_pool),
    ground (arith, w, p, zfill-zfill 6 raw, eq_iff (zfill 6 raw) k),
  )

  handle_event-IsSound :
      (pit_skip : Bool) (now : ℤ) (fresh : String) (event : Fields F) (a : AdmissionEngine F)
      → contains k a.candidate_pool ≡ true
      → IsSound (handle_event cal pit_skip now fresh event a)
  unfolding admission_event
  handle_event-IsSound pit_skip now fresh event a w =
      handle_event_cases cal pit_skip now fresh event a IsSound (λ x. (w, λ e j. cc)) (w, λ e j. cc)
        λ normal raw ids p.
          let added = admission_event cal now fresh (zfill 6 raw) ids a in
          let other = added_other now raw added a w p.2 in
          (
            other.0,
            λ e j.
                subst (λ t. str_eq (zfill 6 t) k ≡ false) {x = zfill 6 raw} {y = e.ticker}
                  (ground (arith, j)) other.1,
          )

  abbrev IsLeft : Manager F → Type 0
  IsLeft m = IsStuck k m.holdings m.admission

  promoted-IsLeft :
      (t : Moment F) (fresh : String) (m : Manager F)
      (r : Result AdmissionError (Option AdmissionEvent))
      → IsLeft m
      → ((e : AdmissionEvent) → r ≡ ok (some e) → str_eq (zfill 6 e.ticker) k ≡ false)
      → IsLeft (promoted cal t fresh m r).1
  unfolding promoted
  promoted-IsLeft t fresh m (err e) w c = w
  promoted-IsLeft t fresh m (ok none) w c = w
  promoted-IsLeft t fresh m (ok (some e)) w c =
      (w.0, promote-IsStuck t.now fresh e m.holdings (c e refl) w.1)

  handled-IsLeft :
      (pit_skip : Bool) (t : Moment F) (fresh : String) (event : Fields F) (m : Manager F)
      (r : Result Raised Bool)
      → IsLeft m
      → IsLeft (handle_gated cal pit_skip t fresh event m r).1
  unfolding handle_gated handle_enabled
  handled-IsLeft pit_skip t fresh event m (err e) w = w
  handled-IsLeft pit_skip t fresh event m (ok false) w = w
  handled-IsLeft pit_skip t fresh event m (ok true) w =
      let r = handle_event cal pit_skip t.now fresh event m.admission in
      let (kept, other) = handle_event-IsSound pit_skip t.now fresh event m.admission w.0 in
      promoted-IsLeft t fresh (record m { admission = r.1 }) r.0 (kept, w.1) other

  cycled-IsLeft :
      (t : Moment F) (fresh : String → String) (fetched : Option (WatchSnapshot F))
      (trigger_state : Option (Fields F)) (m : Manager F) (r : Result Raised Bool)
      → IsLeft m
      → IsLeft (cycle_gated cal t fresh fetched trigger_state m r).1
  unfolding cycle_gated evaluated
  cycled-IsLeft t fresh fetched trigger_state m (err e) w = w
  cycled-IsLeft t fresh fetched trigger_state m (ok false) w = w
  cycled-IsLeft t fresh fetched trigger_state m (ok true) w =
      evaluate_keeps cal fresh m.exit _ trigger_state t.now t.time_of_day (IsStuck k)
        (λ raw reason h a event. exit-IsStuck k cal t.now (fresh raw) raw reason h a event)
        m.holdings m.admission w

  step-IsLeft : (m : Manager F) (c : Call F) → IsLeft m → IsLeft (step cal m c)
  unfolding step handle_admission_event cycle_once
  step-IsLeft m (handles pit_skip t fresh event) w =
      let r = is_enabled t.monotonic t.content m.gate in
      handled-IsLeft pit_skip t fresh event (record m { gate = r.1 }) r.0 w
  step-IsLeft m (cycles t fresh fetched trigger_state) w =
      let r = is_enabled t.monotonic t.content m.gate in
      cycled-IsLeft t fresh fetched trigger_state (record m { gate = r.1 }) r.0 w

  -- A ticker that is a candidate and is not held, such as one whose promotion was refused for want of
  -- room, stays so through any events and cycles: it is never held, and it takes up its place in the
  -- pool for ever.
  pub run_stuck :
      (m : Manager F) (cs : List (Call F))
      → (contains k m.admission.candidate_pool ≡ true) × (contains k m.holdings.holdings ≡ false)
      → (contains k (run cal m cs).admission.candidate_pool ≡ true)
        × (contains k (run cal m cs).holdings.holdings ≡ false)
  unfolding run
  run_stuck m [] w = w
  run_stuck m (c ∷ cs) w = run_stuck (step cal m c) cs (step-IsLeft m c w)
