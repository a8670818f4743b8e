-- ===== src/Ops/StateMachine.antt =====
-- new/src/ops/state_machine.py: the run states of the pipeline, the table of allowed transitions
-- and the object that enforces it. Logging is left out; `history` is kept as the code keeps it.
pub mod Cases
pub mod Trace
pub mod Reach
use flephant.Base.{
  ℕ, String, ◌≡◌, Bool, Option, none, some, List, [], ◌∷◌, ◌++◌, arith, ◌==◌, if◌then◌else◌, any,
}
use flephant.Base.Result.{Result, ok, err}

pub data PipelineState : Type 0 where
  bootstrap hot_running cold_running degraded emergency_halt manual_override recovery :
      PipelineState
  mode_b_idle mode_b_evolving mode_b_backtest mode_b_operator_review : PipelineState
  mode_b_deploy mode_b_blocked shutdown error : PipelineState

-- A number for each member, by which members are compared.
abbrev pub ordinal : PipelineState → ℕ
ordinal bootstrap = 0
ordinal hot_running = 1
ordinal cold_running = 2
ordinal degraded = 3
ordinal emergency_halt = 4
ordinal manual_override = 5
ordinal recovery = 6
ordinal mode_b_idle = 7
ordinal mode_b_evolving = 8
ordinal mode_b_backtest = 9
ordinal mode_b_operator_review = 10
ordinal mode_b_deploy = 11
ordinal mode_b_blocked = 12
ordinal shutdown = 13
ordinal error = 14

-- `a == b` on members of the enum
abbrev pub same : PipelineState → PipelineState → Bool
same a b = ordinal a == ordinal b

abbrev pub any_state_transitions : List PipelineState
any_state_transitions = emergency_halt ∷ manual_override ∷ shutdown ∷ error ∷ []

abbrev pub special_transitions : PipelineState → List PipelineState
special_transitions bootstrap = hot_running ∷ degraded ∷ []
special_transitions hot_running = cold_running ∷ degraded ∷ mode_b_idle ∷ []
special_transitions cold_running = hot_running ∷ degraded ∷ []
special_transitions degraded = hot_running ∷ []
special_transitions emergency_halt = recovery ∷ []
special_transitions recovery = hot_running ∷ []
special_transitions manual_override = hot_running ∷ recovery ∷ []
special_transitions mode_b_idle = mode_b_evolving ∷ bootstrap ∷ []
special_transitions mode_b_evolving = mode_b_backtest ∷ []
special_transitions mode_b_backtest = mode_b_deploy ∷ mode_b_operator_review ∷ mode_b_blocked ∷ []
special_transitions mode_b_operator_review = mode_b_deploy ∷ mode_b_blocked ∷ []
special_transitions mode_b_deploy = mode_b_idle ∷ []
special_transitions mode_b_blocked = mode_b_idle ∷ []
special_transitions shutdown = []
special_transitions error = bootstrap ∷ []

-- A frozenset is a list here: only membership in it is asked for.
abbrev pub allowed_transitions : PipelineState → List PipelineState
allowed_transitions current =
    let specials = special_transitions current in
    if same current shutdown then specials else specials ++ any_state_transitions

-- `target in allowed`
unfoldable pub is_allowed : PipelineState → PipelineState → Bool
unfolding any
is_allowed current target = any (same target) (allowed_transitions current)

-- A record of `history`: where from (`None` at the start), where to, and the caller's time stamp.
pub record Entry : Type 0 where
  pub source : Option PipelineState
  pub target : PipelineState
  pub ts : Option String

-- `history` is newest first here; the code appends at the other end.
pub record StateMachine : Type 0 where
  pub state : PipelineState
  pub history : List Entry

pub data IllegalTransition : Type 0 where
  illegal : PipelineState → PipelineState → IllegalTransition

-- `StateMachine(initial)`
unfoldable pub init : PipelineState → StateMachine
init initial = record {
  state = initial;
  history = record { source = none; target = initial; ts = none } ∷ [];
}

-- The machine comes back beside the exception too: what was written before a raise stays.
unfoldable pub transition :
    PipelineState
    → Option String
    → StateMachine
    → Result IllegalTransition (Unit {0}) × StateMachine
unfolding is_allowed
transition target ts m =
    if same target m.state
    then (ok tt, m)
    else if is_allowed m.state target
    then (
      ok tt,
      record m {
        state = target;
        history = record { source = some m.state; target = target; ts = ts } ∷ m.history;
      },
    )
    else (err (illegal m.state target), m)

-- A caller's run of requests; one that raises changes nothing and the caller goes on.
unfoldable pub run : StateMachine → List (PipelineState × Option String) → StateMachine
run m [] = m
run m ((target, ts) ∷ rest) = run (transition target ts m).1 rest
