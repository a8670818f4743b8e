-- ===== src/DynamicUniverse/Exit/Keeps.antt =====
-- What an evaluation keeps: whatever the exit of a single holding keeps.
use flephant.Base.{
  String, ◌≡◌, refl, subst, sym, Option, none, some, List, [], ◌∷◌, Dict, lookup, if_cases,
  option_cases,
}
use flephant.Base.Int.{ℤ}
use flephant.Base.Result.{Result, ok, err}
use flephant.Python.Text.{zfill}
use flephant.Python.Calendar.{Calendar}
use flephant.Python.Value.{Fields, Runtime, Raised, nonempty}
use flephant.DynamicUniverse.Admission.Types.{AdmissionEngine}
use flephant.DynamicUniverse.Admission.Handle.{remove_from_pool}
use flephant.DynamicUniverse.Holdings.{
  Holding, HoldingsManager, ExitReason, ExitEvent, get_holdings, remove,
}
use flephant.DynamicUniverse.Exit.{
  ExitEngine, Evaluated, exit_reason, with_event, exited, decided, evaluate_all, evaluate,
}

module _ {F : Type 0} where
  not_removed :
      (cal : Calendar) (now : ℤ) (fresh raw : String) (reason : ExitReason) (h : HoldingsManager F)
      → (remove cal now fresh raw reason h).0 ≡ none
      → (remove cal now fresh raw reason h).1 ≡ h
  unfolding remove
  not_removed cal now fresh raw reason h =
      option_cases (λ (r : Option (ExitEvent F) × HoldingsManager F). r.0 ≡ none → r.1 ≡ h)
        (lookup (zfill 6 raw) h.holdings) (λ absent e. refl) (λ entry held e. cc)

module _ {F : Type 0} ⦃py : Runtime F⦄ (cal : Calendar) (fresh : String → String) (x : ExitEngine F)
    (current_snapshot : Dict (Fields F)) (trigger_state : Option (Fields F)) (now time : ℤ)
    (P : HoldingsManager F → AdmissionEngine F → Type 0)
    (exit_keeps : (raw : String) (reason : ExitReason) (h : HoldingsManager F)
        (a : AdmissionEngine F) (event : ExitEvent F)
      → P h a
      → (remove cal now (fresh raw) raw reason h).0 ≡ some event
      → P (remove cal now (fresh raw) raw reason h).1 (remove_from_pool now raw a).1) where
  abbrev IsKept : Evaluated F → Type 0
  IsKept r = P r.1 r.2

  with_event-IsKept :
      (event : ExitEvent F) (r : Evaluated F) → IsKept r → IsKept (with_event event r)
  unfolding with_event
  with_event-IsKept event (answer, h, a) w = w

  exited-IsKept :
      (e : Holding F) (a : AdmissionEngine F)
      (rest : HoldingsManager F → AdmissionEngine F → Evaluated F)
      (r : Option (ExitEvent F) × HoldingsManager F)
      → (r.0 ≡ none → P r.1 a)
      → ((event : ExitEvent F) → r.0 ≡ some event → P r.1 (remove_from_pool now e.ticker a).1)
      → ((h' : HoldingsManager F) (a' : AdmissionEngine F) → P h' a' → IsKept (rest h' a'))
      → IsKept (exited cal fresh x current_snapshot trigger_state now time e a rest r)
  unfolding exited
  exited-IsKept e a rest (none, h) n w g = g h a (n refl)
  exited-IsKept e a rest (some event, h) n w g =
      let a' = (remove_from_pool now e.ticker a).1 in
      with_event-IsKept event (rest h a') (g h a' (w event refl))

  decided-IsKept :
      (e : Holding F) (r : Result Raised (Option ExitReason)) (h : HoldingsManager F)
      (a : AdmissionEngine F) (rest : HoldingsManager F → AdmissionEngine F → Evaluated F)
      → P h a
      → ((h' : HoldingsManager F) (a' : AdmissionEngine F) → P h' a' → IsKept (rest h' a'))
      → IsKept (decided cal fresh x current_snapshot trigger_state now time e r h a rest)
  unfolding decided
  decided-IsKept e (err y) h a rest w g = w
  decided-IsKept e (ok none) h a rest w g = g h a w
  decided-IsKept e (ok (some reason)) h a rest w g =
      exited-IsKept e a rest (remove cal now (fresh e.ticker) e.ticker reason h)
        (λ n.
          subst (λ h'. P h' a) (sym (not_removed cal now (fresh e.ticker) e.ticker reason h n)) w)
        (λ event. exit_keeps e.ticker reason h a event w) g

  evaluate_all-IsKept :
      (hs : List (Holding F)) (h : HoldingsManager F) (a : AdmissionEngine F)
      → P h a
      → IsKept (evaluate_all cal fresh x current_snapshot trigger_state now time hs h a)
  unfolding evaluate_all
  evaluate_all-IsKept [] h a w = w
  evaluate_all-IsKept (e ∷ es) h a w =
      if_cases IsKept (nonempty e.ticker)
        (λ n.
          decided-IsKept e (exit_reason cal x current_snapshot trigger_state now time e) h a
            (evaluate_all cal fresh x current_snapshot trigger_state now time es) w
            (evaluate_all-IsKept es))
        (λ n. evaluate_all-IsKept es h a w)

  pub evaluate_keeps :
      (h : HoldingsManager F) (a : AdmissionEngine F)
      → P h a
      → IsKept (evaluate cal fresh x current_snapshot trigger_state now time h a)
  unfolding evaluate
  evaluate_keeps h a w = evaluate_all-IsKept (get_holdings h) h a w
