-- ===== src/Execution/Gateway/Orders.antt =====
-- What is true of every order that the broker path sends, and of the record before it.
use flephant.Base.{
  ℕ, String, Bool, true, ◌≡◌, refl, ap, List, [], ◌∷◌, arith, All, if_cases, length,
}
use flephant.Base.Int.{ℤ, pos, ◌<ℤ◌}
use flephant.Python.Value.{Fields, Runtime}
use flephant.Utils.SafeCast.{is_in}
use flephant.Utils.TickerUtils.{is_valid_ticker}
use flephant.Execution.Gateway.Types.{
  Client, Gateway, Order, Reason, Effect, execution_rejected, World, Env,
}
use flephant.Execution.Gateway.Normalize.{valid_order_delta}
use flephant.Execution.Gateway.Audit.{log, audit, rejected_report, reject}
use flephant.Execution.Gateway.Submit.{delta_is_valid, order_of}
use flephant.Execution.Gateway.Broker.{submit_all, execute_broker}
use flephant.Execution.Gateway.Sends.{sent, sent-reject, submit_all-All, execute_broker_cases}
use flephant.Execution.Gateway.Records.{IsAudited, AddsAudited, submit_loop-AddsAudited}

-- A six digit ticker, a known side and a positive quantity.
module _ {F : Type 0} where
  abbrev pub IsTradable : Order F → Type 0
  IsTradable o =
      (is_valid_ticker o.ticker ≡ true)
      × (is_in o.side ("buy" ∷ "sell" ∷ []) ≡ true)
      × (pos 0 <ℤ o.qty)

module _ {F : Type 0} ⦃py : Runtime F⦄ where
  valid-IsTradable :
      (ticker side : String) (qty : ℤ) (price : F) (order_type : String) (types : List String)
      → valid_order_delta ticker side qty price order_type types ≡ true
      → (is_valid_ticker ticker ≡ true) × (is_in side ("buy" ∷ "sell" ∷ []) ≡ true) × (pos 0 <ℤ qty)
  unfolding valid_order_delta
  valid-IsTradable ticker side qty price order_type types h = ground arith

  deltas-IsTradable :
      (g : Gateway F) (client : Client F) (ods : List (Fields F))
      → All (λ od. delta_is_valid g client od ≡ true → IsTradable (order_of client od)) ods
  unfolding delta_is_valid
  deltas-IsTradable g client [] = tt
  deltas-IsTradable g client (od ∷ ods) =
      (λ v. valid-IsTradable _ _ _ _ _ _ v, deltas-IsTradable g client ods)

  -- Every order that the broker path sends has a six digit ticker, the side buy or sell, and a
  -- positive quantity, whatever deltas it is given: if that holds of the orders sent before, it holds
  -- of all that have been sent after the call.
  pub execute_broker-IsTradable :
      (g : Gateway F) (env : Env F) (plan decision : String) (ods : List (Fields F)) (w : World F)
      → All IsTradable (sent w.trace)
      → All IsTradable (sent (execute_broker g env plan decision ods w).1.trace)
  execute_broker-IsTradable g env plan decision ods w before =
      execute_broker_cases (λ r. All IsTradable (sent r.1.trace)) g env plan decision ods w
        (λ reason. rw (sent-reject g env plan decision reason w) before)
        λ client injected can logger taken.
          submit_all-All g env client plan decision IsTradable ods _
            (deltas-IsTradable g client ods) before

  module _ (plan decision : String) (before : List (Effect F)) where
    -- A record that is no order may be added.
    pub audit-AddsAudited :
        (g : Gateway F) (env : Env F) (n : ℕ) (e : Effect F) (w : World F)
        → ((es : List (Effect F))
            → IsAudited plan decision n es
            → IsAudited plan decision n (e ∷ es))
        → AddsAudited plan decision n before w.trace
        → AddsAudited plan decision n before (audit g env e w).trace
    unfolding audit log
    audit-AddsAudited g env n e w keeps (es, grown, h) =
        let C : World F → Type 0 = λ v. AddsAudited plan decision n before v.trace in
        if_cases C g.has_audit_logger
          (λ logger.
            if_cases (λ (r : Bool × World F). C r.1) (env.log_accepts w.trace e)
              (λ taken. (e ∷ es, ap (λ tr. e ∷ tr) grown, keeps es h)) (λ refused. (es, grown, h)))
          (λ none_there. (es, grown, h))

    pub reject-AddsAudited :
        (g : Gateway F) (env : Env F) (n : ℕ) (reason : Reason F) (w : World F)
        → AddsAudited plan decision n before w.trace
        → AddsAudited plan decision n before (reject g env plan decision reason w).1.trace
    unfolding reject
    reject-AddsAudited g env n reason w h =
        audit-AddsAudited g env n (execution_rejected (rejected_report g env plan decision reason))
          w (λ es k. k) h

    -- The broker path sends no order before its own record is in the audit log.
    pub execute_broker-AddsAudited :
        (g : Gateway F) (env : Env F) (ods : List (Fields F)) (w : World F)
        → AddsAudited plan decision (length ods) before w.trace
        → AddsAudited plan decision
            (length ods)
            before
            (execute_broker g env plan decision ods w).1.trace
    unfolding submit_all
    execute_broker-AddsAudited g env ods w h =
        execute_broker_cases (λ r. AddsAudited plan decision (length ods) before r.1.trace) g env
          plan decision ods w (λ reason. reject-AddsAudited g env (length ods) reason w h)
          λ client injected can logger taken.
            submit_loop-AddsAudited plan decision (length ods) before g env client ods _ w refl h
