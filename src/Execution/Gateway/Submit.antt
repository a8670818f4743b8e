-- ===== src/Execution/Gateway/Submit.antt =====
-- The loop of `_execute_broker`: what it reads from a delta, what it sends, and what it makes of the
-- broker's answer.
use flephant.Base.{String, Bool, not, ◌&&◌, Option, none, some, List, [], ◌∷◌, ◌++◌, if◌then◌else◌}
use flephant.Base.Int.{pos}
use flephant.Python.Text.{lower, strip}
use flephant.Python.Value.{
  Value, Fields, Runtime, str, int, dict, end, field, get, get_or, or_else, text_of, nonempty,
}
use flephant.Utils.SafeCast.{safe_float, safe_lossless_int, is_in}
use flephant.Execution.Gateway.Types.{
  Client, Gateway, Order, BrokerReason, rt_cd, status, status_unknown, status_missing,
  order_id_missing, SubmitRejection, invalid_delta, broker_submit_exception, refused, Rejection,
  confirmed, Fill, order_sent, World, Env,
}
use flephant.Execution.Gateway.Normalize.{valid_order_delta, order_type_of}

module _ {F : Type 0} ⦃py : Runtime F⦄ where
  -- `_broker_order_id`
  unfoldable pub broker_order_id : Fields F → String
  broker_order_id answer = strip (
      text_of (
        or_else
          (or_else
            (or_else (or_else (get "order_id" answer) (get "order_no" answer)) (get "odno" answer))
            (get "ODNO" answer))
          (str "")))

  -- `_broker_response_rejection_reason`
  unfoldable pub broker_response_rejection_reason : Fields F → String → Option BrokerReason
  broker_response_rejection_reason answer order_id =
      let state = lower (strip (text_of (or_else (get "status" answer) (str "")))) in
      let code = strip (text_of (or_else (get "rt_cd" answer) (str ""))) in
      let code_ok = is_in code ("0" ∷ "0000" ∷ []) in
      let refusals = "rejected" ∷ "failed" ∷ "fail" ∷ "error" ∷ "cancelled" ∷ [] in
      let successes =
        "submitted" ∷ "accepted" ∷ "success" ∷ "filled" ∷ "partial_filled" ∷ "partial" ∷ [] in
      if nonempty code && not code_ok
      then some (rt_cd code)
      else if is_in state refusals
      then some (status state)
      else if nonempty state && not (is_in state successes)
      then some (status_unknown state)
      else if not (nonempty state) && not code_ok
      then some status_missing
      else if not (nonempty order_id)
      then some order_id_missing
      else none

  unfoldable pub delta_price : Fields F → F
  delta_price od = safe_float (get "price" od) (py.of_int (pos 0)) none none

  -- What the loop reads from a delta.
  unfoldable pub order_of : Client F → Fields F → Order F
  unfolding delta_price
  order_of client od = record {
    ticker = text_of (get_or "ticker" (str "") od);
    side = lower (text_of (get_or "side" (str "") od));
    qty = safe_lossless_int (get_or "qty" (int (pos 0)) od) (pos 0) none none;
    price = if client.accepts_price then some (delta_price od) else none;
    order_type = if client.accepts_order_type then some (order_type_of od) else none;
  }

-- What the loop of `_execute_broker` carries.
pub record Tally (F : Type 0) : Type 0 where
  pub world : World F
  pub fills : List (Fill F)
  pub rejections : List (Rejection F)
  pub estimated_cost : F

module _ {F : Type 0} ⦃py : Runtime F⦄ where
  unfoldable pub delta_is_valid : Gateway F → Client F → Fields F → Bool
  unfolding order_of delta_price
  delta_is_valid g client od =
      let order = order_of client od in
      valid_order_delta order.ticker order.side order.qty (delta_price od) (order_type_of od)
        g.allowed_order_types

  -- an answer that is no dict is wrapped
  unfoldable pub answer_fields : Value F → Fields F
  answer_fields (dict answer) = answer
  answer_fields v = field "raw_response" (str (py.repr v)) end

  unfoldable pub rejection : Order F → SubmitRejection F → Rejection F
  rejection order reason = record {
    ticker = order.ticker;
    side = order.side;
    qty = order.qty;
    reason = reason;
  }

  unfoldable pub fill : Env F → Order F → F → String → Fields F → Fill F
  fill env order price order_id answer = record {
    ticker = order.ticker;
    side = order.side;
    qty = order.qty;
    avg_fill_price =
        safe_float (get_or "avg_fill_price" (get_or "price" (Value.float price) answer) answer)
          price none none;
    fill_ts = text_of (get_or "fill_ts" (str env.now) answer);
    detail =
        confirmed (lower (strip (text_of (or_else (get "status" answer) (str "submitted")))))
          order_id answer;
  }

  unfoldable pub reject_one : Order F → SubmitRejection F → Tally F → Tally F
  unfolding rejection
  reject_one order reason t = record t { rejections = t.rejections ++ rejection order reason ∷ [] }

  unfoldable pub fill_one : Fill F → Tally F → Tally F
  fill_one f t = record t {
    fills = t.fills ++ f ∷ [];
    estimated_cost = py.add t.estimated_cost (py.mul (py.of_int f.qty) f.avg_fill_price);
  }

  -- What is made of the broker's answer to an order.
  unfoldable pub answered : Env F → Order F → F → Option (Value F) → Tally F → Tally F
  answered env order price none t = reject_one order broker_submit_exception t
  answered env order price (some v) t =
      let answer = answer_fields v in
      let order_id = broker_order_id answer in
      elim (broker_response_rejection_reason answer order_id) [
        | some reason ↦ reject_one order (refused reason answer) t
        | none ↦ fill_one (fill env order price order_id answer) t
      ]

  unfoldable pub send : Order F → World F → World F
  send order w = record w { trace = order_sent order ∷ w.trace }

  -- One round of the loop of `_execute_broker`.
  unfoldable pub submit_delta : Gateway F → Env F → Client F → Fields F → Tally F → Tally F
  submit_delta g env client od t =
      let order = order_of client od in
      if not (delta_is_valid g client od)
      then reject_one order invalid_delta t
      else answered env order (delta_price od) (env.submit_order t.world.trace order)
          (record t { world = send order t.world })

  unfoldable pub submit_loop : Gateway F → Env F → Client F → List (Fields F) → Tally F → Tally F
  submit_loop g env client [] t = t
  submit_loop g env client (od ∷ ods) t =
      submit_loop g env client ods (submit_delta g env client od t)
