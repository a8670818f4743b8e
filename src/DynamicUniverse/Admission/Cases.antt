-- ===== src/DynamicUniverse/Admission/Cases.antt =====
-- The outcomes of `handle_event`: an error or no admission, which leave the engine as it is, or an
-- admission that has passed every test.
use flephant.Base.{
  String, Bool, true, false, ◌≡◌, refl, Option, none, some, List, length, insert, if_cases,
  option_cases,
}
use flephant.Base.Int.{ℤ, pos, ltb_ℤ, leb_ℤ}
use flephant.Base.Result.{Result, ok, err}
use flephant.Python.Text.{zfill}
use flephant.Python.Calendar.{Calendar}
use flephant.Python.Value.{Value, Fields, Runtime, Raised, text_of}
use flephant.DynamicUniverse.Admission.Types.{AdmissionEvent, AdmissionEngine, AdmissionError}
use flephant.DynamicUniverse.Admission.Extract.{normalize_price_snapshot_candidate}
use flephant.DynamicUniverse.Admission.Rules.{match_admission_rules}
use flephant.DynamicUniverse.Admission.Handle.{
  is_admissible, admission_event, admit_matched, matched, time_of, pit_check, ticker_raw, consider,
  handle_normalized, handled, handle_event,
}

-- The answer of `handle_event`, and the engine after it.
abbrev pub Handled : Type 0 → Type 0
Handled F = Result AdmissionError (Option AdmissionEvent) × AdmissionEngine F

module _ {F : Type 0} ⦃py : Runtime F⦄ (cal : Calendar) (pit_skip : Bool) (now : ℤ) (fresh : String)
    (event : Fields F) (a : AdmissionEngine F) where
  -- An admission that has passed every test.
  abbrev pub Passed : Fields F → String → List String → Type 0
  Passed normal ticker ids =
      (normalize_price_snapshot_candidate event ≡ ok normal)
      × (pit_check cal pit_skip now (time_of normal) ≡ none)
      × (is_admissible now ticker a ≡ true)
      × (ltb_ℤ (pos (length ids)) a.min_trigger_count ≡ false)
      × (leb_ℤ a.candidate_pool_max (pos (length a.candidate_pool)) ≡ false)

  -- The answer with the event of an admission, and the engine with it in the pool.
  abbrev pub admitted : String → List String → Handled F
  admitted ticker ids =
      let e = admission_event cal now fresh ticker ids a in
      (ok (some e), record a { candidate_pool = insert ticker e a.candidate_pool })

  module _ (P : Handled F → Type 0) (refused : (x : AdmissionError) → P (err x, a))
      (nothing : P (ok none, a))
      (passed : (normal : Fields F) (raw : String) (ids : List String)
        → Passed normal (zfill 6 raw) ids
        → P (admitted (zfill 6 raw) ids)) where
    matched_cases :
        (normal : Fields F) (raw : String) (r : Result Raised (List String))
        → normalize_price_snapshot_candidate event ≡ ok normal
        → pit_check cal pit_skip now (time_of normal) ≡ none
        → is_admissible now (zfill 6 raw) a ≡ true
        → P (matched cal now fresh (zfill 6 raw) a r)
    unfolding matched admit_matched
    matched_cases normal raw (err x) n t h = refused _
    matched_cases normal raw (ok ids) n t h =
        if_cases Q (ltb_ℤ (pos (length ids)) a.min_trigger_count) (λ few. nothing)
          λ enough.
            if_cases Q (leb_ℤ a.candidate_pool_max (pos (length a.candidate_pool)))
              (λ full. nothing) (λ room. passed normal raw ids (n, t, h, enough, room))
      where
        Q : Option AdmissionEvent × AdmissionEngine F → Type 0
        Q r = P (ok r.0, r.1)

    normalized_cases :
        (normal : Fields F) (raw : Result Raised (Value F))
        → normalize_price_snapshot_candidate event ≡ ok normal
        → P (handle_normalized cal pit_skip now fresh a normal raw)
    unfolding handle_normalized consider
    normalized_cases normal (err x) n = refused _
    normalized_cases normal (ok raw) n =
        option_cases P (pit_check cal pit_skip now (time_of normal))
          (λ timely.
            if_cases P (is_admissible now (zfill 6 (text_of raw)) a)
              (λ h.
                matched_cases normal (text_of raw) (match_admission_rules a.admission_rules normal)
                  n timely h)
              (λ h. nothing))
          (λ error e. refused error)

    handled_cases :
        (r : Result Raised (Fields F))
        → normalize_price_snapshot_candidate event ≡ r
        → P (handled cal pit_skip now fresh a r)
    unfolding handled
    handled_cases (err x) n = refused _
    handled_cases (ok normal) n = normalized_cases normal (ticker_raw normal) n

    pub handle_event_cases : P (handle_event cal pit_skip now fresh event a)
    unfolding handle_event
    handle_event_cases = handled_cases (normalize_price_snapshot_candidate event) refl
