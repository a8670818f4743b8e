-- ===== src/Execution/Gateway/Audit.antt =====
-- `_audit` and `_rejected`: the record of a call, and the report of a refusal.
use flephant.Base.{String, Bool, true, false, some, [], ◌∷◌, if◌then◌else◌}
use Prim.Native.String.{◌++◌ as join}
use flephant.Base.Int.{pos}
use flephant.Python.Value.{Runtime}
use flephant.Execution.Gateway.Types.{
  Gateway, Reason, rejected, order_rejected, Report, Effect, execution_rejected, World, Env,
}

module _ {F : Type 0} where
  -- `self._audit_logger.log(...)`: whether it went through, and the world after it
  unfoldable pub log : Env F → Effect F → World F → Bool × World F
  log env e w =
      if env.log_accepts w.trace e then (true, record w { trace = e ∷ w.trace }) else (false, w)

  -- `_audit`: a failure is only logged
  unfoldable pub audit : Gateway F → Env F → Effect F → World F → World F
  unfolding log
  audit g env e w = if g.has_audit_logger then (log env e w).1 else w

module _ {F : Type 0} ⦃py : Runtime F⦄ where
  unfoldable pub rejected_report : Gateway F → Env F → String → String → Reason F → Report F
  rejected_report g env plan decision reason = record {
    order_plan_id = plan;
    submitted_at = env.now;
    status = rejected;
    fills = [];
    estimated_cost = py.of_int (pos 0);
    realized_slippage = py.of_int (pos 0);
    execution_mode = g.mode;
    rejections = [];
    rejection_reason = some reason;
    kb_message_id = join "KB-" plan;
    lesson_stub = order_rejected reason;
    final_decision_ref = decision;
    n_fills = 0;
  }

  -- `_rejected`: the report, and its audit record
  unfoldable pub reject :
      Gateway F → Env F → String → String → Reason F → World F → Report F × World F
  unfolding rejected_report audit
  reject g env plan decision reason w =
      let report = rejected_report g env plan decision reason in
      (report, audit g env (execution_rejected report) w)
