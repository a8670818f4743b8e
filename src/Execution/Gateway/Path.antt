-- ===== src/Execution/Gateway/Path.antt =====
-- The call that passes every guard does reach the broker.
use flephant.Base.{
  String, true, false, ◌≡◌, refl, ap, none, some, List, [], ◌∷◌, arith, length, eq_refl, str_eq,
  ◌∙◌, sym, map, keep,
}
use flephant.Base.Result.{ok}
use flephant.Base.Int.{pos}
use flephant.Python.Value.{Fields, Runtime, bool, str, get, get_or, text_of}
use flephant.Execution.Gateway.Types.{Client, Gateway, Report, pre_submit, World, Env}
use flephant.Execution.Gateway.Normalize.{normalize_order_deltas}
use flephant.Execution.Gateway.Approval.{broker_mode_rejection, is_mode}
use flephant.Execution.Gateway.Universe.{active_universe_rejection}
use flephant.Execution.Gateway.Audit.{log}
use flephant.Execution.Gateway.Broker.{submit_all, audit_preflight, after_preflight, execute_broker}
use flephant.Execution.Gateway.Execute.{
  reported, execute_paper, execute_mode, finish, switch_rejection, after_universe, execute_orders,
  decision_rejection, execute_normalized, execute_approved, order_deltas_of, execute,
}
use flephant.Execution.Gateway.Submit.{Tally, order_of, delta_is_valid}
use flephant.Execution.Gateway.Sends.{sent, sent-submit_loop, newest_first}
use flephant.Execution.Gateway.Safety.{sent-finish, trace-active_universe_rejection}
use flephant.Execution.Gateway.Ready.{HasBroker}

paper_tests : (m : String) → m ≡ "paper" → (str_eq m "mock" ≡ false) × (str_eq m "paper" ≡ true)
paper_tests m e = rw e (refl, refl)

module _ {F : Type 0} ⦃py : Runtime F⦄ where
  -- The world after the record that comes before sending.
  abbrev pub announced : String → String → List (Fields F) → World F → World F
  announced plan decision ods w = record w {
    trace = pre_submit plan decision (length ods) ∷ w.trace;
  }

  broker_reached :
      (g : Gateway F) (env : Env F) (client : Client F) (plan decision : String)
      (ods : List (Fields F)) (w : World F)
      → g.kis_client ≡ some client
      → client.has_submit_order ≡ true
      → g.has_audit_logger ≡ true
      → env.log_accepts w.trace (pre_submit plan decision (length ods)) ≡ true
      → execute_broker g env plan decision ods w
        ≡ submit_all g env client plan decision ods (announced plan decision ods w)
  unfolding execute_broker audit_preflight after_preflight log
  broker_reached g env client plan decision ods w c has logger accepts =
      rw (c, has, logger, accepts) refl

  mode_accepted :
      (g : Gateway F) (mode : String) → HasBroker g mode → broker_mode_rejection g mode ≡ none
  unfolding broker_mode_rejection is_mode
  mode_accepted g mode b = rw (b.injected, b.right_mode, eq_refl mode) refl

  paper_reached :
      (g : Gateway F) (env : Env F) (plan decision : String) (ods : List (Fields F)) (w : World F)
      → g.mode ≡ "paper"
      → broker_mode_rejection g "virtual" ≡ none
      → execute_mode g env plan decision ods w ≡ reported (execute_broker g env plan decision ods w)
  unfolding execute_mode execute_paper
  paper_reached g env plan decision ods w paper accepted =
      let (not_mock, is_paper) = paper_tests g.mode paper in ground arith

  switch_off :
      (g : Gateway F) (env : Env F) (plan decision : String) (ods : List (Fields F)) (w : World F)
      → switch_rejection g ≡ none
      → after_universe g env plan decision ods (ok none, w)
        ≡ finish g env (execute_mode g env plan decision ods w)
  unfolding after_universe
  switch_off g env plan decision ods w off = ground arith

  -- The call is the loop over all the deltas and the record of its report.
  execute_paper_path :
      (g : Gateway F) (env : Env F) (plan : String) (d : Fields F) (w w' : World F) (od : Fields F)
      (ods : List (Fields F)) (b : HasBroker g "virtual")
      → let decision = text_of (get_or "decision_id" (str "") d) in
        g.mode ≡ "paper"
        → get "approved" d ≡ bool true
        → normalize_order_deltas g (order_deltas_of d) ≡ (od ∷ ods, [])
        → active_universe_rejection g env (od ∷ ods) w ≡ (ok none, w')
        → switch_rejection g ≡ none
        → env.log_accepts w'.trace (pre_submit plan decision (length (od ∷ ods))) ≡ true
        → execute g env plan d w
          ≡ finish g env (
              reported (
                submit_all g env b.client plan decision
                  (od ∷ ods)
                  (announced plan decision (od ∷ ods) w')))
  unfolding execute execute_approved execute_normalized decision_rejection execute_orders
      after_universe
  execute_paper_path g env plan d w w' od ods b paper approved valid inside off accepts =
      rw (approved, valid, inside)
        (switch_off g env plan _ (od ∷ ods) w' off
          ∙ ap (finish g env) (
              paper_reached g env plan _ (od ∷ ods) w' paper (mode_accepted g "virtual" b)
              ∙ ap reported (
                  broker_reached g env b.client plan _ (od ∷ ods) w' b.injected b.can_submit
                    b.logger accepts)))

  -- In paper mode, let a decision be approved, its deltas be all valid and inside the active universe,
  -- no kill switch be active, a client of the virtual server that can submit and an audit log be there,
  -- and the log take the record of the sending. Then the call answers with a report, and the orders
  -- that it sends are those of the normalized deltas that pass the check of the broker path: all of
  -- these, each once, in their order, and no others.
  pub execute_paper_reached :
      (g : Gateway F) (env : Env F) (plan : String) (d : Fields F) (w w' : World F) (od : Fields F)
      (ods : List (Fields F)) (b : HasBroker g "virtual")
      → let decision = text_of (get_or "decision_id" (str "") d) in
        g.mode ≡ "paper"
        → get "approved" d ≡ bool true
        → normalize_order_deltas g (order_deltas_of d) ≡ (od ∷ ods, [])
        → active_universe_rejection g env (od ∷ ods) w ≡ (ok none, w')
        → switch_rejection g ≡ none
        → env.log_accepts w'.trace (pre_submit plan decision (length (od ∷ ods))) ≡ true
        → ((report : Report F) × ((execute g env plan d w).0 ≡ ok report))
          × (sent (execute g env plan d w).1.trace
              ≡ newest_first
                  (map (order_of b.client) (keep (delta_is_valid g b.client) (od ∷ ods)))
                  (sent w.trace))
  unfolding submit_all finish
  execute_paper_reached g env plan d w w' od ods b paper approved valid inside off accepts =
      let path =
        execute_paper_path g env plan d w w' od ods b paper approved valid inside off accepts in
      let same : w'.trace ≡ w.trace =
        ap (λ r. r.1.trace) (sym inside) ∙ trace-active_universe_rejection g env (od ∷ ods) w in
      let start : Tally F = record {
        world = announced plan _ (od ∷ ods) w';
        fills = [];
        rejections = [];
        estimated_cost = py.of_int (pos 0);
      } in
      let loop = submit_all g env b.client plan _ (od ∷ ods) (announced plan _ (od ∷ ods) w') in
      (
        (loop.0, ap (λ r. r.0) path),
        ap (λ r. sent r.1.trace) path
            ∙ sent-finish g env (reported loop)
            ∙ sent-submit_loop g env b.client (od ∷ ods) start
            ∙ ap
                (λ tr.
                  newest_first
                    (map (order_of b.client) (keep (delta_is_valid g b.client) (od ∷ ods)))
                    (sent tr))
                same,
      )
