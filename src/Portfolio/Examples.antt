-- ===== src/Portfolio/Examples.antt =====
-- A plan that buys one stock, gives up another, of which less can be sold than the weight asks for,
-- and leaves out a third whose weight is no number.
use flephant.Base.{
  ◌≤◌, true, false, none, ◌≡◌, refl, ◌≢◌, some, keep, any, List, [], ◌∷◌, All, length,
}
use flephant.Base.Int.{ℤ, pos, ◌+ℤ◌, ◌-ℤ◌, ◌*ℤ◌}
use flephant.Base.Result.{ok, err}
use flephant.Python.Value.{list, str, int, field, end, text_of}
use flephant.Python.Whole.{whole}
use flephant.Execution.Gateway.Types.{Gateway}
use flephant.Execution.Gateway.Normalize.{or_limit, normalize_order_deltas}
use flephant.Portfolio.Accepted.{IsListed, normalize_order_deltas-plan}
use flephant.Portfolio.Types.{
  PortfolioManager, buy, sell, risk_reduce, rebalance, OrderDelta, delta_items, SellCap,
  negative_qty, Patch,
}
use flephant.Portfolio.Orders.{
  no_orders, order_loop, order_step, add_priced, add_sized, add_sale, sell_some, add_order,
  delta_of, qty_of, reason_of, held_qty, read_current, read_held, sellable_qty, compute_turnover,
  size, negligible, all_tickers,
}
use flephant.Portfolio.Targets.{
  weight_or, read_targets, parse_weight, read_prices, set_exits, without_negatives, limit_names,
  limit_single, clipped, tiny, zero_weight, is_above,
}
use flephant.Execution.Gateway.Universe.{sorted_set, insert_text}
use flephant.Utils.SafeCast.{to_float, safe_float, safe_lossless_int, is_in}
use flephant.Utils.TickerUtils.{is_valid_ticker, pad_ticker}
use flephant.Python.Text.{zfill, isdigit}
use flephant.Portfolio.Plan.{
  patch_of, planned, has_negative, Request, exits_of, read_weights, current_of, turnover_of,
  turnover_exceeded, scale_of, basis_of, planned_targets, plan,
}
use flephant.Portfolio.Safety.{IsSafe, plan-IsSafe}
use flephant.Portfolio.Names.{planned_targets_few}

abbrev manager : PortfolioManager ℤ
manager = record {
  respect_ppo_weights = false;
  max_names = pos 2;
  max_single_name = pos 50;
  daily_turnover_max = pos 100;
}

abbrev request : Request ℤ
request = record {
  target_weights =
      field "5930" (int (pos 10)) (field "660" (int (pos 20)) (field "35420" (str "?") end));
  current_positions =
      field "ticker" (str "660") (
        field "qty" (int (pos 5))
          (field "available_qty" (int (pos 3)) (field "weight" (int (pos 10)) end)))
      ∷ [];
  latest_prices = field "5930" (int (pos 50)) (field "660" (int (pos 100)) end);
  portfolio_value = pos 100;
  cold_path_exits = "660" ∷ [];
}

abbrev orders : List (OrderDelta ℤ)
orders =
    record {
      ticker = "000660";
      side = sell;
      qty = pos 3;
      reason = risk_reduce;
      delta_weight = ℤ.negsuc 9;
      price = pos 100;
    }
    ∷ record {
      ticker = "005930";
      side = buy;
      qty = pos 20;
      reason = rebalance;
      delta_weight = pos 10;
      price = pos 50;
    }
    ∷ []

plan-IsSafe_example :
    (plan manager request ≢ err negative_qty)
    × ((p : Patch ℤ)
        → plan manager request ≡ ok p
        → All (IsSafe (basis_of manager request)) p.order_deltas)
plan-IsSafe_example = plan-IsSafe manager request

planned_targets_few_example : length (planned_targets manager request).weights ≤ 2
planned_targets_few_example = planned_targets_few manager request 2 refl refl

abbrev cap : SellCap
cap = record { ticker = "000660"; requested_qty = pos 10; capped_qty = pos 3 }

planned_orders :
    order_loop (basis_of manager request) ("000660" ∷ "005930" ∷ []) no_orders
    ≡ some (record { deltas = orders; errors = []; caps = cap ∷ [] })
unfolding order_loop basis_of order_step add_priced add_sized add_sale sell_some add_order delta_of
    qty_of reason_of held_qty weight_or planned_targets read_weights read_targets parse_weight
    current_of read_current read_held sellable_qty read_prices set_exits without_negatives
    limit_names limit_single clipped exits_of scale_of turnover_exceeded turnover_of
    compute_turnover sorted_set insert_text to_float safe_float safe_lossless_int pad_ticker text_of
    keep any size negligible tiny all_tickers is_in zfill ◌+ℤ◌ ◌-ℤ◌ ◌*ℤ◌ zero_weight is_above
planned_orders = refl

abbrev patch : Patch ℤ
patch = patch_of manager request (record { deltas = orders; errors = []; caps = cap ∷ [] })

made : plan manager request ≡ ok patch
unfolding plan planned has_negative order_loop basis_of order_step add_priced add_sized add_sale
    sell_some add_order delta_of qty_of reason_of held_qty weight_or planned_targets read_weights
    read_targets parse_weight current_of read_current read_held sellable_qty read_prices set_exits
    without_negatives limit_names limit_single clipped exits_of scale_of turnover_exceeded
    turnover_of compute_turnover sorted_set insert_text to_float safe_float safe_lossless_int
    pad_ticker text_of keep any size negligible tiny all_tickers is_in zfill ◌+ℤ◌ ◌-ℤ◌ ◌*ℤ◌
    zero_weight is_above
made = refl

listed : All IsListed patch.order_deltas
unfolding patch_of is_valid_ticker isdigit
listed = ((refl, refl, refl), ((refl, refl, refl), tt))

abbrev gateway : Gateway ℤ
gateway = record {
  mode = "paper";
  live_enabled = false;
  slippage_bps = pos 5;
  allowed_order_types = "00" ∷ [];
  first_band = record { min_price = pos 0; tick_size = pos 1 };
  more_bands = [];
  kill_switch = none;
  has_audit_logger = true;
  kis_client = none;
  live_approval_proof = end;
}

limit_allowed : is_in "00" (or_limit gateway.allowed_order_types) ≡ true
unfolding is_in or_limit
limit_allowed = refl

normalize_order_deltas-plan_example :
    let (normalized, errors) =
      normalize_order_deltas gateway (list (delta_items patch.order_deltas)) in
    (errors ≡ []) × (length normalized ≡ length patch.order_deltas)
normalize_order_deltas-plan_example =
    normalize_order_deltas-plan gateway limit_allowed manager request patch made listed
