-- ===== src/Ops/StateMachine/Reach.antt =====
-- What the table of transitions allows over many steps.
use flephant.Base.{
  ◌≡◌, refl, ◌≢◌, ◌⊎◌, inl, Bool, true, false, ◌||◌, Option, List, [], ◌∷◌, arith, String,
}
use flephant.Ops.StateMachine.{
  PipelineState, bootstrap, hot_running, mode_b_backtest, mode_b_operator_review, mode_b_deploy,
  shutdown, manual_override, Entry, StateMachine, same, is_allowed, init, transition, run,
}
use flephant.Ops.StateMachine.Cases.{transition_cases, run_induction}

-- A path of allowed transitions.
pub data PathTo (goal : PipelineState) : PipelineState → Type 0 where
  here : PathTo goal goal
  step :
      {s : PipelineState} (t : PipelineState)
      → is_allowed s t ≡ true
      → PathTo goal t
      → PathTo goal s

-- From every state but SHUTDOWN the pipeline can come back to HOT_RUNNING.
pub hot_running_reachable : (s : PipelineState) → s ≢ shutdown → PathTo hot_running s
unfolding is_allowed
hot_running_reachable shutdown h = absurd (h refl)
hot_running_reachable hot_running h = here
hot_running_reachable bootstrap h = step hot_running refl here
hot_running_reachable _ h = step manual_override refl (step hot_running refl here)

shutdown_closed :
    (s target : PipelineState) → s ≡ shutdown → s ≢ target → is_allowed s target ≡ true → ⊥
unfolding is_allowed
shutdown_closed s target e ne a = ground arith

-- SHUTDOWN is final: from it no run of requests changes the machine, its history included.
pub run-shutdown :
    (m : StateMachine) (requests : List (PipelineState × Option String))
    → m.state ≡ shutdown
    → run m requests ≡ m
run-shutdown m requests h = run_induction (λ n. n ≡ m) stays m requests refl
  where
    stays :
        (n : StateMachine) (target : PipelineState) (ts : Option String)
        → n ≡ m
        → (transition target ts n).1 ≡ m
    stays n target ts e =
        transition_cases (λ k. k ≡ m) target ts n e
          λ ne a. absurd (shutdown_closed n.state target (cc) ne a)

-- Whether a history records that a state was entered.
abbrev pub entered : PipelineState → List Entry → Bool
entered s [] = false
entered s (e ∷ rest) = same s e.target || entered s rest

-- The states of the nightly chain from the backtest to the deployment.
abbrev pub after_backtest : PipelineState → Bool
after_backtest mode_b_backtest = true
after_backtest mode_b_operator_review = true
after_backtest mode_b_deploy = true
after_backtest _ = false

abbrev IsGated : StateMachine → Type 0
IsGated m = after_backtest m.state ≡ true → entered mode_b_backtest m.history ≡ true

-- Only the backtest leads into the chain.
gate :
    (s t : PipelineState)
    → is_allowed s t ≡ true
    → after_backtest t ≡ true
    → (same mode_b_backtest t ≡ true) ⊎ (after_backtest s ≡ true)
unfolding is_allowed
gate s mode_b_backtest a h = inl refl
gate s mode_b_operator_review a h = ground arith
gate s mode_b_deploy a h = ground arith
gate s _ a h = cc

transition-IsGated :
    (m : StateMachine) (target : PipelineState) (ts : Option String)
    → IsGated m
    → IsGated (transition target ts m).1
transition-IsGated m target ts h =
    transition_cases IsGated target ts m h λ ne a late. ground (arith, gate m.state target a late)

-- No deployment without a backtest: if the machine began before the backtest, and a run of requests
-- leaves it in the backtest, the operator review or the deployment, then the history records that
-- the backtest was entered.
pub deploy_needs_backtest :
    (s : PipelineState) (requests : List (PipelineState × Option String))
    → after_backtest s ≡ false
    → after_backtest (run (init s) requests).state ≡ true
    → entered mode_b_backtest (run (init s) requests).history ≡ true
deploy_needs_backtest s requests before late =
    run_induction IsGated transition-IsGated (init s) requests (unfold init in λ l. cc) late
