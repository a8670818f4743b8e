-- ===== src/Ops/StateMachine/Trace.antt =====
-- What `history` records, over `transition` and over a run of requests.
use flephant.Base.{◌≡◌, refl, ◌≢◌, String, true, Option, none, some, List, [], ◌∷◌, arith}
use flephant.Ops.StateMachine.{
  PipelineState, Entry, StateMachine, is_allowed, init, transition, run,
}
use flephant.Ops.StateMachine.Cases.{transition_cases, run_induction}

-- The newest record ends at `now`; each record begins where the one before it ended, by an allowed
-- transition to another state; the oldest record has no source.
abbrev pub Links : PipelineState → List Entry → Type 0
Links now [] = Unit
Links now (e ∷ []) = (e.target ≡ now) × (e.source ≡ none)
Links now (e ∷ f ∷ rest) =
    (e.target ≡ now)
    × (e.source ≡ some f.target)
    × (f.target ≢ now)
    × (is_allowed f.target now ≡ true)
    × Links f.target (f ∷ rest)

-- The history is not empty, and is linked up to the present state.
abbrev pub IsTrace : StateMachine → Type 0
IsTrace m = (m.history ≢ []) × Links m.state m.history

init-IsTrace : (s : PipelineState) → IsTrace (init s)
unfolding init
init-IsTrace s = (λ e. cc, (refl, refl))

Links-push :
    (now next : PipelineState) (ts : Option String) (h : List Entry)
    → h ≢ []
    → Links now h
    → now ≢ next
    → is_allowed now next ≡ true
    → Links next (record { source = some now; target = next; ts = ts } ∷ h)
Links-push now next ts [] full l ne a = absurd (full refl)
Links-push now next ts (f ∷ []) full l ne a = ground arith
Links-push now next ts (f ∷ g ∷ rest) full l ne a = ground arith

transition-IsTrace :
    (m : StateMachine) (target : PipelineState) (ts : Option String)
    → IsTrace m
    → IsTrace (transition target ts m).1
transition-IsTrace m target ts h =
    transition_cases IsTrace target ts m h
      λ ne a. (λ e. cc, Links-push m.state target ts m.history h.0 h.1 ne a)

-- From a fresh machine, after any requests, accepted or refused, the history is a linked trace of
-- allowed transitions between different states that ends in the present state.
pub run-init-IsTrace :
    (s : PipelineState) (requests : List (PipelineState × Option String))
    → IsTrace (run (init s) requests)
run-init-IsTrace s requests =
    run_induction IsTrace transition-IsTrace (init s) requests (init-IsTrace s)
