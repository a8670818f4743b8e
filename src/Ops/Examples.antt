-- ===== src/Ops/Examples.antt =====
-- Runs of the state machine that the theorems are applied to: a day with a refused request, the
-- nightly chain, and a shutdown.
use flephant.Base.{◌≡◌, refl, String, true, Option, none, some, List, [], ◌∷◌}
use flephant.Ops.StateMachine.{
  PipelineState, bootstrap, hot_running, cold_running, recovery, mode_b_idle, mode_b_evolving,
  mode_b_backtest, mode_b_operator_review, mode_b_deploy, emergency_halt, shutdown, init, run,
  transition,
}
use flephant.Ops.StateMachine.Trace.{IsTrace, run-init-IsTrace}
use flephant.Ops.StateMachine.Reach.{
  PathTo, hot_running_reachable, run-shutdown, entered, deploy_needs_backtest,
}

-- The second request is illegal.
abbrev day : List (PipelineState × Option String)
day =
    (hot_running, some "09:00")
    ∷ (recovery, none)
    ∷ (cold_running, none)
    ∷ (cold_running, none)
    ∷ (emergency_halt, none)
    ∷ []

abbrev night : List (PipelineState × Option String)
night =
    (mode_b_idle, none)
    ∷ (mode_b_evolving, none)
    ∷ (mode_b_backtest, none)
    ∷ (mode_b_operator_review, none)
    ∷ (mode_b_deploy, none)
    ∷ []

run-init-IsTrace_example : IsTrace (run (init bootstrap) day)
run-init-IsTrace_example = run-init-IsTrace bootstrap day

hot_running_reachable_example : PathTo hot_running emergency_halt
hot_running_reachable_example = hot_running_reachable emergency_halt (λ e. cc)

init_shutdown : (init shutdown).state ≡ shutdown
unfolding init
init_shutdown = refl

run-shutdown_example : run (init shutdown) day ≡ init shutdown
run-shutdown_example = run-shutdown (init shutdown) day init_shutdown

night_deploys : (run (init hot_running) night).state ≡ mode_b_deploy
unfolding run transition init
night_deploys = refl

deploy_needs_backtest_example :
    entered mode_b_backtest (run (init hot_running) night).history ≡ true
deploy_needs_backtest_example = deploy_needs_backtest hot_running night refl (rw night_deploys refl)
