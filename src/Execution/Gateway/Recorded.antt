-- ===== src/Execution/Gateway/Recorded.antt =====
-- The whole call keeps the order of record and sending.
use flephant.Base.{
  ℕ, String, Bool, not, ◌≡◌, refl, Option, none, some, List, [], ◌++◌, length, str_eq, if_cases,
  option_cases, subst, sym,
}
use flephant.Base.Result.{Result, ok, err}
use flephant.Python.Value.{Value, Fields, Runtime, Raised, bool, str, get, get_or, text_of}
use flephant.Execution.Gateway.Types.{
  Gateway, Reason, OrderError, live_not_enabled, invalid_execution_mode, approved_must_be_bool,
  rejected, Effect, execution_success, World, Env,
}
use flephant.Execution.Gateway.Normalize.{normalize_order_deltas}
use flephant.Execution.Gateway.Approval.{broker_mode_rejection, live_approval_rejection}
use flephant.Execution.Gateway.Universe.{active_universe_rejection}
use flephant.Execution.Gateway.Audit.{audit}
use flephant.Execution.Gateway.Execute.{
  Outcome, execute_paper, after_approval, execute_live, execute_mode, audit_success, finish,
  switch_rejection, after_universe, execute_orders, decision_rejection, execute_normalized,
  execute_approved, order_deltas_of, execute,
}
use flephant.Execution.Gateway.Records.{IsAudited, AddsAudited}
use flephant.Execution.Gateway.Orders.{
  audit-AddsAudited, reject-AddsAudited, execute_broker-AddsAudited,
}
use flephant.Execution.Gateway.Safety.{trace-active_universe_rejection}

module _ {F : Type 0} ⦃py : Runtime F⦄ (g : Gateway F) (env : Env F) (plan decision : String)
    (before : List (Effect F)) where
  -- What the call has left behind so far, with that many orders to send.
  abbrev AuditedSince : ℕ → World F → Type 0
  AuditedSince n w = AddsAudited plan decision n before w.trace

  abbrev Audited : ℕ → Outcome F → Type 0
  Audited n r = AuditedSince n r.1

  paper-IsAudited :
      (ods : List (Fields F)) (w : World F)
      → AuditedSince (length ods) w
      → Audited (length ods) (execute_paper g env plan decision ods w)
  unfolding execute_paper
  paper-IsAudited ods w h =
      option_cases (Audited (length ods)) (broker_mode_rejection g "virtual")
        (λ e. execute_broker-AddsAudited plan decision before g env ods w h)
        (λ reason e. reject-AddsAudited plan decision before g env (length ods) reason w h)

  approval-IsAudited :
      (ods : List (Fields F)) (w : World F) (r : Result Raised (Option (Reason F)))
      → AuditedSince (length ods) w
      → Audited (length ods) (after_approval g env plan decision ods w r)
  unfolding after_approval
  approval-IsAudited ods w (err e) h = h
  approval-IsAudited ods w (ok (some reason)) h =
      reject-AddsAudited plan decision before g env (length ods) reason w h
  approval-IsAudited ods w (ok none) h =
      option_cases (Audited (length ods)) (broker_mode_rejection g "real")
        (λ e. execute_broker-AddsAudited plan decision before g env ods w h)
        (λ reason e. reject-AddsAudited plan decision before g env (length ods) reason w h)

  mode-IsAudited :
      (ods : List (Fields F)) (w : World F)
      → AuditedSince (length ods) w
      → Audited (length ods) (execute_mode g env plan decision ods w)
  unfolding execute_mode execute_live
  mode-IsAudited ods w h =
      if_cases (Audited (length ods)) (str_eq g.mode "mock") (λ e. h)
        λ not_mock.
          if_cases (Audited (length ods)) (str_eq g.mode "paper") (λ e. paper-IsAudited ods w h)
            λ not_paper.
              if_cases (Audited (length ods)) (str_eq g.mode "live")
                (λ e.
                  if_cases (Audited (length ods)) (not g.live_enabled)
                    (λ off.
                      reject-AddsAudited plan decision before g env (length ods) live_not_enabled w
                        h)
                    (λ on. approval-IsAudited ods w (live_approval_rejection g) h))
                (λ e.
                  reject-AddsAudited plan decision before g env (length ods)
                    (invalid_execution_mode g.mode) w h)

  finish-IsAudited : (n : ℕ) (r : Outcome F) → Audited n r → Audited n (finish g env r)
  unfolding finish audit_success
  finish-IsAudited n (err e, w) h = h
  finish-IsAudited n (ok report, w) h =
      elim report.status
        as (λ status.
          AuditedSince n
            (elim status [ rejected ↦ w | _ ↦ audit g env (execution_success report) w ])) [
              | rejected ↦ h
              | _ ↦
                  audit-AddsAudited plan decision before g env n (execution_success report) w
                    (λ es k. k) h
            ]

  universe-IsAudited :
      (ods : List (Fields F)) (r : Result Raised (Option (Reason F)) × World F)
      → AuditedSince (length ods) r.1
      → Audited (length ods) (after_universe g env plan decision ods r)
  unfolding after_universe
  universe-IsAudited ods (err e, w) h = h
  universe-IsAudited ods (ok (some reason), w) h =
      reject-AddsAudited plan decision before g env (length ods) reason w h
  universe-IsAudited ods (ok none, w) h =
      option_cases (Audited (length ods)) (switch_rejection g)
        (λ e.
          finish-IsAudited (length ods) (execute_mode g env plan decision ods w)
            (mode-IsAudited ods w h))
        (λ reason e. reject-AddsAudited plan decision before g env (length ods) reason w h)

  normalized-IsAudited :
      (d : Fields F) (approved : Bool) (w : World F) (r : List (Fields F) × List (OrderError F))
      → AuditedSince (length r.0) w
      → Audited (length r.0) (execute_normalized g env plan d decision approved w r)
  unfolding execute_normalized execute_orders
  normalized-IsAudited d approved w (ods, errors) h =
      option_cases (Audited (length ods)) (decision_rejection d approved ods errors)
        (λ e. universe-IsAudited ods (active_universe_rejection g env ods w) (
          subst (AddsAudited plan decision (length ods) before)
            (sym (trace-active_universe_rejection g env ods w)) h))
        (λ reason e. reject-AddsAudited plan decision before g env (length ods) reason w h)

  approved-IsAudited :
      (d : Fields F) (v : Value F) (w : World F)
      → let n = length (normalize_order_deltas g (order_deltas_of d)).0 in
        AuditedSince n w → Audited n (execute_approved g env plan d decision v w)
  unfolding execute_approved
  approved-IsAudited d (bool approved) w h =
      normalized-IsAudited d approved w (normalize_order_deltas g (order_deltas_of d)) h
  approved-IsAudited d _ w h =
      reject-AddsAudited plan decision before g env _ approved_must_be_bool w h

module _ {F : Type 0} ⦃py : Runtime F⦄ where
  -- No call of `execute` sends an order before a record of the sending is in the audit log, whatever
  -- the call comes to: the trace grows by effects in which every order follows the record, with nothing
  -- but orders in between, and this record is of the same call, and has its plan, its decision and the
  -- number of its normalized deltas.
  pub execute-IsAudited :
      (g : Gateway F) (env : Env F) (plan : String) (d : Fields F) (w : World F)
      → (es : List (Effect F)) × ((execute g env plan d w).1.trace ≡ es ++ w.trace)
        × IsAudited plan
            (text_of (get_or "decision_id" (str "") d))
            (length (normalize_order_deltas g (order_deltas_of d)).0)
            es
  unfolding execute
  execute-IsAudited g env plan d w =
      approved-IsAudited g env plan (text_of (get_or "decision_id" (str "") d)) w.trace d
        (get "approved" d) w ([], refl, tt)
