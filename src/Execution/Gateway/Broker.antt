-- ===== src/Execution/Gateway/Broker.antt =====
-- `_execute_broker`: audit before sending, the loop over the deltas, and the report of both lists.
use flephant.Base.{
  String, Bool, false, not, Option, none, some, List, [], ◌∷◌, if◌then◌else◌, length, all,
}
use Prim.Native.String.{◌++◌ as join}
use flephant.Base.Int.{pos}
use flephant.Python.Value.{Fields, Runtime}
use flephant.Utils.SafeCast.{is_in}
use flephant.Execution.Gateway.Types.{
  Client, Gateway, Reason, broker_dependency_missing, submit_order_missing, audit_logger_missing,
  audit_logger_unavailable, Rejection, simulated, confirmed, Fill, Status, rejected, filled,
  partial_filled, submitted, Lesson, no_lesson, submissions_rejected, Report, pre_submit, World,
  Env,
}
use flephant.Execution.Gateway.Audit.{log, reject}
use flephant.Execution.Gateway.Submit.{Tally, submit_loop}

module _ {F : Type 0} ⦃py : Runtime F⦄ where
  is_done : Fill F → Bool
  is_done f = elim f.detail [
    | simulated vwap slippage ↦ false
    | confirmed state order_id answer ↦ is_in state ("filled" ∷ "mock_accepted" ∷ [])
  ]

  unfoldable pub final_status : List (Fill F) → List (Rejection F) → Status
  unfolding is_done
  final_status [] rejections = rejected
  final_status (f ∷ fs) (r ∷ rs) = partial_filled
  final_status (f ∷ fs) [] = if all is_done (f ∷ fs) then filled else submitted

  lesson_of : List (Rejection F) → Lesson F
  lesson_of [] = no_lesson
  lesson_of (r ∷ rs) = submissions_rejected (length (r ∷ rs))

  unfoldable pub broker_report : Gateway F → Env F → String → String → Tally F → Report F
  unfolding lesson_of final_status
  broker_report g env plan decision t = record {
    order_plan_id = plan;
    submitted_at = env.now;
    status = final_status t.fills t.rejections;
    fills = t.fills;
    estimated_cost = t.estimated_cost;
    realized_slippage = py.of_int (pos 0);
    execution_mode = g.mode;
    rejections = t.rejections;
    rejection_reason = none;
    kb_message_id = join "KB-" plan;
    lesson_stub = lesson_of t.rejections;
    final_decision_ref = decision;
    n_fills = length t.fills;
  }

  -- the report of the loop, and the world that it leaves
  unfoldable pub submit_all :
      Gateway F
      → Env F
      → Client F
      → String
      → String
      → List (Fields F)
      → World F
      → Report F × World F
  unfolding submit_loop
  submit_all g env client plan decision ods w =
      let t =
        submit_loop g env client ods
          (record { world = w; fills = []; rejections = []; estimated_cost = py.of_int (pos 0) }) in
      (broker_report g env plan decision t, t.world)

  -- `_broker_audit_preflight_rejection`: the reason to stop, or none
  unfoldable pub audit_preflight :
      Gateway F → Env F → String → String → List (Fields F) → World F → Option (Reason F) × World F
  audit_preflight g env plan decision ods w =
      if not g.has_audit_logger
      then (some audit_logger_missing, w)
      else (let (accepted, w') = log env (pre_submit plan decision (length ods)) w in
          if accepted then (none, w') else (some audit_logger_unavailable, w'))

  -- What follows the record: a refusal, or the loop.
  unfoldable pub after_preflight :
      Gateway F
      → Env F
      → Client F
      → String
      → String
      → List (Fields F)
      → Option (Reason F) × World F
      → Report F × World F
  after_preflight g env client plan decision ods (some reason, w) =
      reject g env plan decision reason w
  after_preflight g env client plan decision ods (none, w) =
      submit_all g env client plan decision ods w

  -- `_execute_broker`
  unfoldable pub execute_broker :
      Gateway F → Env F → String → String → List (Fields F) → World F → Report F × World F
  execute_broker g env plan decision ods w = elim g.kis_client [
    | none ↦ reject g env plan decision broker_dependency_missing w
    | some client ↦
        if not client.has_submit_order
        then reject g env plan decision submit_order_missing w
        else after_preflight g env client plan decision ods
            (audit_preflight g env plan decision ods w)
  ]
