-- ===== src/Execution/Gateway/Execute.antt =====
-- `execute`: the guards in the order of the code, the three modes, and the audit record at the end.
use flephant.Base.{
  String, Bool, true, false, not, Option, none, some, List, [], ◌∷◌, str_eq, if◌then◌else◌,
}
use flephant.Base.Result.{Result, ok, err}
use flephant.Python.Value.{Value, Items, Fields, Runtime, Raised, bool, str, get, get_or, text_of}
use flephant.Execution.Gateway.Types.{
  Gateway, Reason, approved_must_be_bool, no_order_deltas, kill_switch_missing, live_not_enabled,
  invalid_order_deltas, veto, kill_switch_active, invalid_execution_mode, OrderError, rejected,
  Report, execution_success, World, Env,
}
use flephant.Execution.Gateway.Normalize.{normalize_order_deltas}
use flephant.Execution.Gateway.Approval.{broker_mode_rejection, live_approval_rejection}
use flephant.Execution.Gateway.Universe.{active_universe_rejection}
use flephant.Execution.Gateway.Audit.{audit, reject}
use flephant.Execution.Gateway.Broker.{execute_broker}
use flephant.Execution.Gateway.Mock.{execute_mock}

-- What a call of `execute` comes to: a report, or an exception.
abbrev pub Outcome : Type 0 → Type 0
Outcome F = Result Raised (Report F) × World F

module _ {F : Type 0} where
  abbrev pub reported : Report F × World F → Outcome F
  reported (report, w) = (ok report, w)

module _ {F : Type 0} ⦃py : Runtime F⦄ where
  -- the branch of paper mode
  unfoldable pub execute_paper :
      Gateway F → Env F → String → String → List (Fields F) → World F → Outcome F
  execute_paper g env plan decision ods w = elim (broker_mode_rejection g "virtual") [
    | some reason ↦ reported (reject g env plan decision reason w)
    | none ↦ reported (execute_broker g env plan decision ods w)
  ]

  -- `approval_rejection or self._broker_mode_rejection(...)`, and what follows from it
  unfoldable pub after_approval :
      Gateway F
      → Env F
      → String
      → String
      → List (Fields F)
      → World F
      → Result Raised (Option (Reason F))
      → Outcome F
  after_approval g env plan decision ods w (err e) = (err e, w)
  after_approval g env plan decision ods w (ok (some reason)) =
      reported (reject g env plan decision reason w)
  after_approval g env plan decision ods w (ok none) = elim (broker_mode_rejection g "real") [
    | some reason ↦ reported (reject g env plan decision reason w)
    | none ↦ reported (execute_broker g env plan decision ods w)
  ]

  -- the branch of live mode
  unfoldable pub execute_live :
      Gateway F → Env F → String → String → List (Fields F) → World F → Outcome F
  execute_live g env plan decision ods w =
      if not g.live_enabled
      then reported (reject g env plan decision live_not_enabled w)
      else after_approval g env plan decision ods w (live_approval_rejection g)

  -- 3. the branch on the mode
  unfoldable pub execute_mode :
      Gateway F → Env F → String → String → List (Fields F) → World F → Outcome F
  execute_mode g env plan decision ods w =
      if str_eq g.mode "mock"
      then (ok (execute_mock g env plan decision ods), w)
      else if str_eq g.mode "paper"
      then execute_paper g env plan decision ods w
      else if str_eq g.mode "live"
      then execute_live g env plan decision ods w
      else reported (reject g env plan decision (invalid_execution_mode g.mode) w)

  -- 4. the audit record of a report that is not rejected
  unfoldable pub audit_success : Gateway F → Env F → Report F → World F → World F
  audit_success g env report w = elim report.status [
    | rejected ↦ w
    | _ ↦ audit g env (execution_success report) w
  ]

  unfoldable pub finish : Gateway F → Env F → Outcome F → Outcome F
  finish g env (ok report, w) = (ok report, audit_success g env report w)
  finish g env (err e, w) = (err e, w)

  -- 2. the kill switch, where one is there
  unfoldable pub switch_rejection : Gateway F → Option (Reason F)
  switch_rejection g = elim g.kill_switch [
    | some k ↦ if k.active then some (kill_switch_active k.trigger_reason) else none
    | none ↦ if str_eq g.mode "live" then some kill_switch_missing else none
  ]

  -- What follows the check of the universe: the switch, then the mode.
  unfoldable pub after_universe :
      Gateway F
      → Env F
      → String
      → String
      → List (Fields F)
      → Result Raised (Option (Reason F)) × World F
      → Outcome F
  after_universe g env plan decision ods (err e, w) = (err e, w)
  after_universe g env plan decision ods (ok (some reason), w) =
      reported (reject g env plan decision reason w)
  after_universe g env plan decision ods (ok none, w) = elim (switch_rejection g) [
    | some reason ↦ reported (reject g env plan decision reason w)
    | none ↦ finish g env (execute_mode g env plan decision ods w)
  ]

  -- After the checks of the decision: the universe, the switch, the mode.
  unfoldable pub execute_orders :
      Gateway F → Env F → String → String → List (Fields F) → World F → Outcome F
  execute_orders g env plan decision ods w =
      after_universe g env plan decision ods (active_universe_rejection g env ods w)

  -- Why a decision whose deltas are normalized is not carried out, before anything is looked up.
  unfoldable pub decision_rejection :
      Fields F → Bool → List (Fields F) → List (OrderError F) → Option (Reason F)
  decision_rejection final_decision approved ods (e ∷ es) = some (invalid_order_deltas (e ∷ es))
  decision_rejection final_decision false ods [] =
      some (veto (text_of (get_or "reason_code" (str "UNKNOWN") final_decision)))
  decision_rejection final_decision true [] [] = some no_order_deltas
  decision_rejection final_decision true (od ∷ ods) [] = none

  -- The call for a decision whose `approved` is a bool, after its deltas are normalized.
  unfoldable pub execute_normalized :
      Gateway F
      → Env F
      → String
      → Fields F
      → String
      → Bool
      → World F
      → List (Fields F) × List (OrderError F)
      → Outcome F
  execute_normalized g env plan final_decision decision approved w (ods, errors) =
      elim (decision_rejection final_decision approved ods errors) [
        | some reason ↦ reported (reject g env plan decision reason w)
        | none ↦ execute_orders g env plan decision ods w
      ]

  abbrev pub order_deltas_of : Fields F → Value F
  order_deltas_of final_decision = get_or "order_deltas" (Value.list Items.nil) final_decision

  unfoldable pub execute_approved :
      Gateway F → Env F → String → Fields F → String → Value F → World F → Outcome F
  execute_approved g env plan final_decision decision (bool approved) w =
      execute_normalized g env plan final_decision decision approved w
        (normalize_order_deltas g (order_deltas_of final_decision))
  execute_approved g env plan final_decision decision _ w =
      reported (reject g env plan decision approved_must_be_bool w)

  -- `execute`; `plan` is the identifier that is generated for the call
  unfoldable pub execute : Gateway F → Env F → String → Fields F → World F → Outcome F
  execute g env plan final_decision w =
      execute_approved g env plan final_decision
        (text_of (get_or "decision_id" (str "") final_decision)) (get "approved" final_decision) w
