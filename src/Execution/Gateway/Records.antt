-- ===== src/Execution/Gateway/Records.antt =====
-- What the audit log has of a call: the records of reports, and the record before sending.
use flephant.Base.{ℕ, String, true, ◌≡◌, refl, ap, ◌∙◌, inl, inr, List, [], ◌∷◌, ◌++◌, arith}
use flephant.Python.Value.{Fields, Runtime}
use flephant.Execution.Gateway.Types.{
  Client, Gateway, Reason, Report, rejected, Effect, pre_submit, execution_rejected,
  execution_success, order_sent, World, Env,
}
use flephant.Execution.Gateway.Audit.{log, audit, rejected_report, reject}
use flephant.Execution.Gateway.Submit.{Tally, order_of, submit_delta, submit_loop}
use flephant.Execution.Gateway.Broker.{submit_all}
use flephant.Execution.Gateway.Execute.{reported, finish, audit_success}
use flephant.Execution.Gateway.Sends.{trace-submit_delta}

module _ {F : Type 0} where
  -- The reports that the log holds, the newest first.
  abbrev pub records : List (Effect F) → List (Report F)
  records [] = []
  records (execution_rejected r ∷ es) = r ∷ records es
  records (execution_success r ∷ es) = r ∷ records es
  records (_ ∷ es) = records es

-- The effects of one call that was made for a plan and a decision, with so many orders to send.
module _ {F : Type 0} (plan decision : String) (n : ℕ) where
  -- Before them, with nothing but orders of the same call in between, is the record of the sending: of
  -- this plan, this decision and this number of orders.
  abbrev pub IsAnnounced : List (Effect F) → Type 0
  IsAnnounced [] = ⊥
  IsAnnounced (pre_submit plan' decision' n' ∷ es) =
      (plan' ≡ plan) × (decision' ≡ decision) × (n' ≡ n)
  IsAnnounced (order_sent o ∷ es) = IsAnnounced es
  IsAnnounced (_ ∷ es) = ⊥

  -- Every order was sent after such a record.
  abbrev pub IsAudited : List (Effect F) → Type 0
  IsAudited [] = Unit
  IsAudited (order_sent o ∷ es) = IsAnnounced es × IsAudited es
  IsAudited (_ ∷ es) = IsAudited es

  -- The call has added effects in which every order was sent after such a record.
  abbrev pub AddsAudited : List (Effect F) → List (Effect F) → Type 0
  AddsAudited before after = (es : List (Effect F)) × (after ≡ es ++ before) × IsAudited es

  -- The same, and the record of the sending is there, with only orders after it.
  abbrev AddsAnnounced : List (Effect F) → List (Effect F) → Type 0
  AddsAnnounced before after =
      (es : List (Effect F)) × (after ≡ es ++ before) × IsAnnounced es × IsAudited es

module _ {F : Type 0} ⦃py : Runtime F⦄ where
  submit_delta-records :
      (g : Gateway F) (env : Env F) (client : Client F) (od : Fields F) (t : Tally F)
      → records (submit_delta g env client od t).world.trace ≡ records t.world.trace
  submit_delta-records g env client od t = elim (trace-submit_delta g env client od t) [
    | inl (v, e) ↦ rw e refl
    | inr (v, e) ↦ rw e refl
  ]

  submit_loop-records :
      (g : Gateway F) (env : Env F) (client : Client F) (ods : List (Fields F)) (t : Tally F)
      → records (submit_loop g env client ods t).world.trace ≡ records t.world.trace
  unfolding submit_loop
  submit_loop-records g env client [] t = refl
  submit_loop-records g env client (od ∷ ods) t =
      submit_loop-records g env client ods (submit_delta g env client od t)
      ∙ submit_delta-records g env client od t

  -- A report of the broker path whose orders were all refused is not written to the audit log, by
  -- the path itself or by the end of `execute`.
  pub broker_rejection_unrecorded :
      (g : Gateway F) (env : Env F) (client : Client F) (plan decision : String)
      (ods : List (Fields F)) (w : World F)
      → (submit_all g env client plan decision ods w).0.status ≡ rejected
      → records (finish g env (reported (submit_all g env client plan decision ods w))).1.trace
        ≡ records w.trace
  unfolding submit_all finish audit_success
  broker_rejection_unrecorded g env client plan decision ods w h =
      rw h (submit_loop-records g env client ods _)

  reject_recorded :
      (g : Gateway F) (env : Env F) (plan decision : String) (reason : Reason F) (w : World F)
      → g.has_audit_logger ≡ true
      → ((e : Effect F) → env.log_accepts w.trace e ≡ true)
      → records (finish g env (reported (reject g env plan decision reason w))).1.trace
        ≡ (reject g env plan decision reason w).0 ∷ records w.trace
  unfolding reject finish audit_success rejected_report audit log
  reject_recorded g env plan decision reason w logger accepts =
      ground (arith, accepts (execution_rejected (rejected_report g env plan decision reason)))

  module _ (plan decision : String) (n : ℕ) (before : List (Effect F)) where
    submit_delta-AddsAnnounced :
        (g : Gateway F) (env : Env F) (client : Client F) (od : Fields F) (t : Tally F)
        → AddsAnnounced plan decision n before t.world.trace
        → AddsAnnounced plan decision n before (submit_delta g env client od t).world.trace
    submit_delta-AddsAnnounced g env client od t (es, e, a, h) =
        elim (trace-submit_delta g env client od t) [
          | inl (v, sends) ↦ (
            order_sent (order_of client od) ∷ es,
            sends ∙ ap (λ tr. order_sent (order_of client od) ∷ tr) e,
            a,
            (a, h),
          )
          | inr (v, sends) ↦ (es, sends ∙ e, a, h)
        ]

    submit_loop-AddsAnnounced :
        (g : Gateway F) (env : Env F) (client : Client F) (ods : List (Fields F)) (t : Tally F)
        → AddsAnnounced plan decision n before t.world.trace
        → AddsAnnounced plan decision n before (submit_loop g env client ods t).world.trace
    unfolding submit_loop
    submit_loop-AddsAnnounced g env client [] t h = h
    submit_loop-AddsAnnounced g env client (od ∷ ods) t h =
        submit_loop-AddsAnnounced g env client ods (submit_delta g env client od t)
          (submit_delta-AddsAnnounced g env client od t h)

    -- The loop, after its record.
    pub submit_loop-AddsAudited :
        (g : Gateway F) (env : Env F) (client : Client F) (ods : List (Fields F)) (t : Tally F)
        (w : World F)
        → t.world.trace ≡ pre_submit plan decision n ∷ w.trace
        → AddsAudited plan decision n before w.trace
        → AddsAudited plan decision n before (submit_loop g env client ods t).world.trace
    submit_loop-AddsAudited g env client ods t w first (es, e, h) =
        let step = pre_submit plan decision n in
        let (es', e', a, h') =
          submit_loop-AddsAnnounced g env client ods t
            (step ∷ es, first ∙ ap (λ tr. step ∷ tr) e, (refl, refl, refl), h) in
        (es', e', h')
