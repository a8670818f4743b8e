-- ===== src/Execution/Gateway/Sends.antt =====
-- Which orders a call sends: the part of the trace that matters for safety, along the broker path.
use flephant.Base.{
  String, Bool, true, false, not, ◌≡◌, refl, ◌⊎◌, inl, inr, Option, none, some, List, [], ◌∷◌,
  arith, All, if_cases, option_cases, Bool-cases, length, keep, map, ◌∙◌, if◌then◌else◌,
}
use flephant.Python.Value.{Value, Fields, Runtime}
use flephant.Execution.Gateway.Types.{
  Client, Gateway, Order, Reason, broker_dependency_missing, submit_order_missing,
  audit_logger_missing, audit_logger_unavailable, Effect, pre_submit, execution_rejected,
  execution_success, order_sent, World, Env, Report,
}
use flephant.Execution.Gateway.Audit.{log, audit, reject}
use flephant.Execution.Gateway.Submit.{
  Tally, delta_is_valid, order_of, submit_delta, submit_loop, answered, reject_one, fill_one, send,
}
use flephant.Execution.Gateway.Broker.{submit_all, audit_preflight, after_preflight, execute_broker}

module _ {F : Type 0} where
  -- The orders of a trace, the newest first.
  abbrev pub sent : List (Effect F) → List (Order F)
  sent [] = []
  sent (order_sent o ∷ es) = o ∷ sent es
  sent (_ ∷ es) = sent es

  -- The orders that are sent one after the other, put before those sent already.
  abbrev pub newest_first : List (Order F) → List (Order F) → List (Order F)
  newest_first [] before = before
  newest_first (o ∷ os) before = newest_first os (o ∷ before)

  pub sent-audit :
      (g : Gateway F) (env : Env F) (e : Effect F) (w : World F)
      → sent (e ∷ []) ≡ []
      → sent (audit g env e w).trace ≡ sent w.trace
  unfolding audit
  sent-audit g env (pre_submit p d n) w h = ground arith
  sent-audit g env (execution_rejected r) w h = ground arith
  sent-audit g env (execution_success r) w h = ground arith
  sent-audit g env (order_sent o) w h = cc

module _ {F : Type 0} ⦃py : Runtime F⦄ where
  pub sent-reject :
      (g : Gateway F) (env : Env F) (plan decision : String) (reason : Reason F) (w : World F)
      → sent (reject g env plan decision reason w).1.trace ≡ sent w.trace
  unfolding reject
  sent-reject g env plan decision reason w = ground arith

  pub sent-audit_preflight :
      (g : Gateway F) (env : Env F) (plan decision : String) (ods : List (Fields F)) (w : World F)
      → sent (audit_preflight g env plan decision ods w).1.trace ≡ sent w.trace
  unfolding audit_preflight log
  sent-audit_preflight g env plan decision ods w = ground arith

  pub world-answered :
      (env : Env F) (order : Order F) (price : F) (answer : Option (Value F)) (t : Tally F)
      → (answered env order price answer t).world ≡ t.world
  unfolding answered reject_one fill_one
  world-answered env order price answer t = ground arith

  -- A round sends the order of its delta if that is valid, and nothing else.
  pub trace-submit_delta :
      (g : Gateway F) (env : Env F) (client : Client F) (od : Fields F) (t : Tally F)
      → ((delta_is_valid g client od ≡ true)
          × ((submit_delta g env client od t).world.trace
              ≡ order_sent (order_of client od) ∷ t.world.trace))
        ⊎ ((delta_is_valid g client od ≡ false)
            × ((submit_delta g env client od t).world.trace ≡ t.world.trace))
  unfolding submit_delta reject_one send
  trace-submit_delta g env client od t = elim (Bool-cases (delta_is_valid g client od)) [
    | inl v ↦ inl (v, rw (v, world-answered) refl)
    | inr v ↦ inr (v, rw v refl)
  ]

  -- What holds of every valid order of the deltas and of the orders sent before holds of all that
  -- have been sent after the loop.
  pub submit_loop-All :
      (g : Gateway F) (env : Env F) (client : Client F) (P : Order F → Type 0)
      (ods : List (Fields F)) (t : Tally F)
      → All (λ od. delta_is_valid g client od ≡ true → P (order_of client od)) ods
      → All P (sent t.world.trace)
      → All P (sent (submit_loop g env client ods t).world.trace)
  unfolding submit_loop
  submit_loop-All g env client P [] t h before = before
  submit_loop-All g env client P (od ∷ ods) t h before =
      submit_loop-All g env client P ods (submit_delta g env client od t) h.1
        (elim (trace-submit_delta g env client od t) [
          | inl (v, e) ↦ rw e (h.0 v, before)
          | inr (v, e) ↦ rw e before
        ])

  -- The loop sends exactly the orders of the valid deltas, each once and in their order.
  pub sent-submit_loop :
      (g : Gateway F) (env : Env F) (client : Client F) (ods : List (Fields F)) (t : Tally F)
      → sent (submit_loop g env client ods t).world.trace
        ≡ newest_first
            (map (order_of client) (keep (delta_is_valid g client) ods))
            (sent t.world.trace)
  unfolding submit_loop keep
  sent-submit_loop g env client [] t = refl
  sent-submit_loop g env client (od ∷ ods) t =
      let rest = sent-submit_loop g env client ods (submit_delta g env client od t) in
      elim (trace-submit_delta g env client od t) [
        | inl (v, e) ↦ rest ∙ rw (v, e) refl
        | inr (v, e) ↦ rest ∙ rw (v, e) refl
      ]

  pub submit_all-All :
      (g : Gateway F) (env : Env F) (client : Client F) (plan decision : String)
      (P : Order F → Type 0) (ods : List (Fields F)) (w : World F)
      → All (λ od. delta_is_valid g client od ≡ true → P (order_of client od)) ods
      → All P (sent w.trace)
      → All P (sent (submit_all g env client plan decision ods w).1.trace)
  unfolding submit_all
  submit_all-All g env client plan decision P ods w h before =
      submit_loop-All g env client P ods _ h before

  -- The broker path reaches its loop only with a client that can submit, and after its own record
  -- has gone into the audit log.
  pub execute_broker_cases {ℓ} :
      (P : Report F × World F → Type ℓ) (g : Gateway F) (env : Env F) (plan decision : String)
      (ods : List (Fields F)) (w : World F)
      → ((reason : Reason F) → P (reject g env plan decision reason w))
      → ((client : Client F)
          → g.kis_client ≡ some client
          → client.has_submit_order ≡ true
          → g.has_audit_logger ≡ true
          → env.log_accepts w.trace (pre_submit plan decision (length ods)) ≡ true
          → P (
              submit_all g env client plan decision ods
                (record w { trace = pre_submit plan decision (length ods) ∷ w.trace })))
      → P (execute_broker g env plan decision ods w)
  unfolding execute_broker audit_preflight after_preflight log
  execute_broker_cases P g env plan decision ods w refuse go =
      option_cases P g.kis_client (λ e. refuse broker_dependency_missing)
        λ client c.
          if_cases P (not client.has_submit_order) (λ e. refuse submit_order_missing)
            λ has. preflight client c (ground arith)
    where
      step : Effect F
      step = pre_submit plan decision (length ods)

      preflight :
          (client : Client F)
          → g.kis_client ≡ some client
          → client.has_submit_order ≡ true
          → P (
              after_preflight g env client plan decision ods
                (audit_preflight g env plan decision ods w))
      preflight client c has =
          if_cases Q (not g.has_audit_logger) (λ e. refuse audit_logger_missing)
            λ logger.
              if_cases
                (λ (r : Bool × World F).
                  Q (if r.0 then (none, r.1) else (some audit_logger_unavailable, r.1)))
                (env.log_accepts w.trace step) (λ accepted. go client c has (ground arith) accepted)
                (λ refused. refuse audit_logger_unavailable)
        where
          Q : Option (Reason F) × World F → Type ℓ
          Q r = P (after_preflight g env client plan decision ods r)
