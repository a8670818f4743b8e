-- ===== src/Portfolio/Types.antt =====
-- The data of `PortfolioManager.plan`. The limits on sectors and cash are only reported by the code and
-- are left out.
use flephant.Base.{String, Bool, List, [], ◌∷◌, Dict, Option}
use flephant.Base.Int.{ℤ}
use flephant.Python.Value.{Value, Fields, Items, str, int, float, dict, nil, cons, end, field}

pub record PortfolioManager (F : Type 0) : Type 0 where
  pub respect_ppo_weights : Bool
  pub max_names : ℤ
  pub max_single_name : F
  pub daily_turnover_max : F

pub data PlanError (F : Type 0) : Type 0 where
  malformed_target_weight malformed_current_weight : String → Value F → PlanError F
  negative_target_weight : String → F → PlanError F
  price_unavailable : String → Option F → PlanError F
  lot_size_error : String → F → F → PlanError F
  sell_qty_unavailable : String → F → ℤ → PlanError F

pub data Violation (F : Type 0) : Type 0 where
  negative_weight : String → F → Violation F
  max_names_exceeded : Violation F
  max_single_name_exceeded : String → F → Violation F

pub data Side : Type 0 where
  buy sell : Side

pub data OrderReason : Type 0 where
  risk_reduce exit rebalance : OrderReason

-- An item of `order_deltas`.
pub record OrderDelta (F : Type 0) : Type 0 where
  pub ticker : String
  pub side : Side
  pub qty : ℤ
  pub reason : OrderReason
  pub delta_weight : F
  pub price : F

-- An item of `sell_caps_applied`.
pub record SellCap : Type 0 where
  pub ticker : String
  pub requested_qty : ℤ
  pub capped_qty : ℤ

-- What `plan` raises: NegativeQtyError, or the exception of `math.floor` on a float that is not finite.
pub data PlanRaised : Type 0 where
  negative_qty not_finite : PlanRaised

-- What is gathered while the weights are read: the weights themselves, and what was wrong.
pub record Targets (F : Type 0) : Type 0 where
  pub weights : Dict F
  pub malformed : List String
  pub errors : List (PlanError F)
  pub violations : List (Violation F)

pub record Patch (F : Type 0) : Type 0 where
  pub target_weights : Dict F
  pub order_deltas : List (OrderDelta F)
  pub turnover : F
  pub turnover_exceeded : Bool
  pub scale_factor : F
  pub errors : List (PlanError F)
  pub ppo_violations : List (Violation F)
  pub cold_path_exit_overrides : List String
  pub sell_caps_applied : List SellCap
  pub malformed_weight_tickers : List String

unfoldable pub side_text : Side → String
side_text buy = "buy"
side_text sell = "sell"

unfoldable pub reason_text : OrderReason → String
reason_text risk_reduce = "risk_reduce"
reason_text exit = "exit"
reason_text rebalance = "rebalance"

-- The dict that an order is in the patch.
unfoldable pub delta_fields : {F : Type 0} → OrderDelta F → Fields F
delta_fields od = field "ticker" (str od.ticker) (
    field "side" (str (side_text od.side)) (
      field "qty" (int od.qty) (
        field "reason" (str (reason_text od.reason))
          (field "delta_weight" (float od.delta_weight) (field "price" (float od.price) end)))))

-- `order_deltas`
unfoldable pub delta_items : {F : Type 0} → List (OrderDelta F) → Items F
delta_items [] = nil
delta_items (od ∷ ods) = cons (dict (delta_fields od)) (delta_items ods)
