-- ===== src/Portfolio/Plan.antt =====
-- `plan`: its parts in their order. `None` for the positions, the prices or the exits is the empty one.
use flephant.Base.{String, Bool, ◌&&◌, Option, none, some, List, [], ◌++◌, if◌then◌else◌, any, map}
use flephant.Base.Int.{pos, ltb_ℤ}
use flephant.Base.Result.{Result, ok, err}
use flephant.Python.Value.{Fields, Runtime}
use flephant.Utils.TickerUtils.{pad_ticker}
use flephant.Execution.Gateway.Universe.{sorted_set}
use flephant.Portfolio.Types.{
  PortfolioManager, OrderDelta, PlanRaised, negative_qty, not_finite, Targets, Patch,
}
use flephant.Portfolio.Targets.{
  read_targets, read_prices, set_exits, overrides, without_negatives, limit_names, limit_single,
  tiny,
}
use flephant.Portfolio.Orders.{
  Current, Orders, Basis, no_orders, read_current, read_held, all_tickers, compute_turnover,
  order_loop,
}

-- The arguments of `plan`, but for the time, which is only passed on.
pub record Request (F : Type 0) : Type 0 where
  pub target_weights : Fields F
  pub current_positions : List (Fields F)
  pub latest_prices : Fields F
  pub portfolio_value : F
  pub cold_path_exits : List String

module _ {F : Type 0} where
  abbrev no_targets : Targets F
  no_targets = record { weights = []; malformed = []; errors = []; violations = [] }

  abbrev no_current : Current F
  no_current = record { weights = []; malformed = []; errors = [] }

  -- the last check: a quantity below 0 is a fault of the planner
  unfoldable pub has_negative : List (OrderDelta F) → Bool
  unfolding any
  has_negative deltas = any (λ od. ltb_ℤ od.qty (pos 0)) deltas

  -- the exits of the cold path, without repetition
  unfoldable pub exits_of : Request F → List String
  exits_of r = sorted_set (map pad_ticker r.cold_path_exits)

module _ {F : Type 0} ⦃py : Runtime F⦄ (m : PortfolioManager F) (r : Request F) where
  -- the weights that are read, before the exits of the cold path
  unfoldable pub read_weights : Targets F
  read_weights = read_targets r.target_weights no_targets

  -- the weights that are aimed at
  unfoldable pub planned_targets : Targets F
  planned_targets =
      let exits_set = record read_weights {
        weights = set_exits (exits_of r) read_weights.weights;
      } in
      limit_single m (limit_names m (without_negatives exits_set))

  unfoldable pub current_of : Current F
  current_of = read_current r.current_positions no_current

  unfoldable pub turnover_of : F
  turnover_of = compute_turnover current_of.weights planned_targets.weights

  -- whether the turnover is above the cap, which is not nothing
  unfoldable pub turnover_exceeded : Bool
  unfolding tiny
  turnover_exceeded = py.lt m.daily_turnover_max turnover_of && py.lt tiny m.daily_turnover_max

  unfoldable pub scale_of : F
  scale_of =
      if turnover_exceeded then py.div m.daily_turnover_max turnover_of else py.of_int (pos 1)

  unfoldable pub basis_of : Basis F
  basis_of = record {
    targets = planned_targets.weights;
    current = current_of.weights;
    held = read_held r.current_positions [];
    prices = read_prices r.latest_prices [];
    malformed = planned_targets.malformed ++ current_of.malformed;
    exits = exits_of r;
    scale_factor = scale_of;
    portfolio_value = r.portfolio_value;
  }

  unfoldable pub patch_of : Orders F → Patch F
  patch_of o = record {
    target_weights = planned_targets.weights;
    order_deltas = o.deltas;
    turnover = turnover_of;
    turnover_exceeded = turnover_exceeded;
    scale_factor = scale_of;
    errors = planned_targets.errors ++ current_of.errors ++ o.errors;
    ppo_violations = planned_targets.violations;
    cold_path_exit_overrides = overrides read_weights.weights (exits_of r);
    sell_caps_applied = o.caps;
    malformed_weight_tickers = sorted_set (planned_targets.malformed ++ current_of.malformed);
  }

  unfoldable pub planned : Option (Orders F) → Result PlanRaised (Patch F)
  planned none = err not_finite
  planned (some o) = if has_negative o.deltas then err negative_qty else ok (patch_of o)

  -- `plan`
  unfoldable pub plan : Result PlanRaised (Patch F)
  plan =
      planned
        (order_loop basis_of (all_tickers current_of.weights planned_targets.weights) no_orders)
