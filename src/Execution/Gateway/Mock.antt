-- ===== src/Execution/Gateway/Mock.antt =====
-- `_execute_mock`: every delta is filled at its own price; the slippage is simulated.
use flephant.Base.{ℕ, ◌+◌, String, none, List, [], ◌∷◌, ◌++◌, if◌then◌else◌, length}
use Prim.Native.String.{◌++◌ as join}
use flephant.Base.Int.{ℤ, pos}
use flephant.Python.Value.{Fields, Runtime, str, int, get_or, text_of}
use flephant.Utils.SafeCast.{safe_lossless_int}
use flephant.Execution.Gateway.Types.{Gateway, Fill, simulated, filled, no_lesson, Report, Env}
use flephant.Execution.Gateway.Submit.{delta_price}

-- What the loop of `_execute_mock` carries; `draws` counts the random numbers drawn.
pub record MockTally (F : Type 0) : Type 0 where
  pub draws : ℕ
  pub fills : List (Fill F)
  pub estimated_cost : F
  pub slippage_weighted : F
  pub total_cost : F

module _ {F : Type 0} ⦃py : Runtime F⦄ where
  abbrev nought : F
  nought = py.of_int (pos 0)

  delta_qty : Fields F → ℤ
  delta_qty od = safe_lossless_int (get_or "qty" (int (pos 0)) od) (pos 0) none none

  snapshot_vwap : F → F → F
  snapshot_vwap fill_price noise =
      if py.lt nought fill_price
      then py.mul fill_price (py.add (py.of_int (pos 1)) noise)
      else nought

  slippage : F → F → F
  slippage fill_price vwap =
      if py.lt nought vwap then py.div (py.sub fill_price vwap) vwap else nought

  mock_one : Gateway F → Env F → Fields F → MockTally F → MockTally F
  unfolding delta_qty snapshot_vwap slippage
  mock_one g env od t =
      let fill_price = delta_price od in
      let qty = delta_qty od in
      let noise = env.uniform t.draws (py.div g.slippage_bps (py.of_int (pos 10000))) in
      let vwap = snapshot_vwap fill_price noise in
      let realized = slippage fill_price vwap in
      let cost = py.mul (py.of_int qty) fill_price in
      record {
        draws = t.draws + 1;
        fills =
            t.fills
            ++ record {
              ticker = text_of (get_or "ticker" (str "") od);
              side = text_of (get_or "side" (str "") od);
              qty = qty;
              avg_fill_price = fill_price;
              fill_ts = env.now;
              detail = simulated (py.round 4 vwap) (py.round 6 realized);
            }
              ∷ [];
        estimated_cost = py.add t.estimated_cost cost;
        slippage_weighted = py.add t.slippage_weighted (py.mul realized cost);
        total_cost = py.add t.total_cost cost;
      }

  unfoldable pub mock_loop : Gateway F → Env F → List (Fields F) → MockTally F → MockTally F
  unfolding mock_one
  mock_loop g env [] t = t
  mock_loop g env (od ∷ ods) t = mock_loop g env ods (mock_one g env od t)

  abbrev mock_start : MockTally F
  mock_start = record {
    draws = 0;
    fills = [];
    estimated_cost = nought;
    slippage_weighted = nought;
    total_cost = nought;
  }

  -- `_execute_mock`
  unfoldable pub execute_mock : Gateway F → Env F → String → String → List (Fields F) → Report F
  unfolding mock_loop
  execute_mock g env plan decision ods =
      let t = mock_loop g env ods mock_start in
      let portfolio_slippage =
        if py.lt nought t.total_cost then py.div t.slippage_weighted t.total_cost else nought in
      record {
        order_plan_id = plan;
        submitted_at = env.now;
        status = filled;
        fills = t.fills;
        estimated_cost = t.estimated_cost;
        realized_slippage = py.round 6 portfolio_slippage;
        execution_mode = "mock";
        rejections = [];
        rejection_reason = none;
        kb_message_id = join "KB-" plan;
        lesson_stub = no_lesson;
        final_decision_ref = decision;
        n_fills = length t.fills;
      }
