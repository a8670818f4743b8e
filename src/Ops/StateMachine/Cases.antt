-- ===== src/Ops/StateMachine/Cases.antt =====
-- How a request can end, as a rule for properties of the machine.
use flephant.Base.{
  ◌≡◌, ◌≢◌, ap, inl, inr, true, false, Option, some, List, [], ◌∷◌, arith, Bool-cases, String,
}
use flephant.Ops.StateMachine.{
  PipelineState, ordinal, same, StateMachine, is_allowed, transition, run,
}

ne_of_same : (a b : PipelineState) → same a b ≡ false → b ≢ a
ne_of_same a b h e = ground (arith, ap ordinal e)

-- The machine after an accepted request.
abbrev pub moved : PipelineState → Option String → StateMachine → StateMachine
moved target ts m = record m {
  state = target;
  history = record { source = some m.state; target = target; ts = ts } ∷ m.history;
}

pub transition_cases {ℓ} :
    (P : StateMachine → Type ℓ) (target : PipelineState) (ts : Option String) (m : StateMachine)
    → P m
    → (m.state ≢ target → is_allowed m.state target ≡ true → P (moved target ts m))
    → P (transition target ts m).1
unfolding transition
transition_cases P target ts m stay move = elim (Bool-cases (same target m.state)) [
  | inl e ↦ rw e stay
  | inr ne ↦ elim (Bool-cases (is_allowed m.state target)) [
    | inl a ↦ rw (ne, a) (move (ne_of_same target m.state ne) a)
    | inr a ↦ rw (ne, a) stay
  ]
]

pub run_induction {ℓ} :
    (P : StateMachine → Type ℓ)
    → ((m : StateMachine) (target : PipelineState) (ts : Option String)
        → P m
        → P (transition target ts m).1)
    → (m : StateMachine) (requests : List (PipelineState × Option String)) → P m
    → P (run m requests)
unfolding run
run_induction P keep m [] h = h
run_induction P keep m ((target, ts) ∷ rest) h =
    run_induction P keep (transition target ts m).1 rest (keep m target ts h)
