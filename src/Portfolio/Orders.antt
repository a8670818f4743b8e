-- ===== src/Portfolio/Orders.antt =====
-- The second half of `plan`: what is held, the turnover, and the order of each ticker. The turnover is
-- a sum over a set of tickers, which Python takes in no fixed order; here it is the sorted one.
use flephant.Base.{
  String, ◌&&◌, Option, none, some, List, [], ◌∷◌, ◌++◌, if◌then◌else◌, Dict, lookup, insert, map,
}
use flephant.Base.Int.{ℤ, pos, ltb_ℤ, leb_ℤ}
use flephant.Python.Value.{Fields, Runtime, int, float, get, get_or, has, text_of}
use flephant.Utils.SafeCast.{safe_lossless_int, is_in}
use flephant.Utils.TickerUtils.{pad_ticker}
use flephant.Execution.Gateway.Universe.{sorted_set}
use flephant.Portfolio.Types.{
  PlanError, malformed_current_weight, price_unavailable, lot_size_error, sell_qty_unavailable,
  Side, buy, sell, OrderReason, risk_reduce, exit, rebalance, OrderDelta, SellCap,
}
use flephant.Portfolio.Targets.{weight_or, parse_weight}

-- The weights and the quantities that are held, and the positions with a weight that is no number.
pub record Current (F : Type 0) : Type 0 where
  pub weights : Dict F
  pub malformed : List String
  pub errors : List (PlanError F)

-- What the loop over the tickers has made so far.
pub record Orders (F : Type 0) : Type 0 where
  pub deltas : List (OrderDelta F)
  pub errors : List (PlanError F)
  pub caps : List SellCap

-- What an order is made from.
pub record Basis (F : Type 0) : Type 0 where
  pub targets : Dict F
  pub current : Dict F
  pub held : Dict ℤ
  pub prices : Dict F
  pub malformed : List String
  pub exits : List String
  pub scale_factor : F
  pub portfolio_value : F

module _ {F : Type 0} where
  -- `current_qty.get(ticker, 0)`
  unfoldable pub held_qty : Basis F → String → ℤ
  held_qty b ticker = elim (lookup ticker b.held) [ none ↦ pos 0 | some n ↦ n ]

  abbrev pub no_orders : Orders F
  no_orders = record { deltas = []; errors = []; caps = [] }

  unfoldable pub with_error : PlanError F → Orders F → Orders F
  with_error e o = record o { errors = o.errors ++ e ∷ [] }

module _ {F : Type 0} ⦃py : Runtime F⦄ where
  -- `_sellable_qty`
  unfoldable pub sellable_qty : Fields F → ℤ
  sellable_qty position =
      let held =
        safe_lossless_int (get_or "qty" (int (pos 0)) position) (pos 0) (some (pos 0)) none in
      let available =
        safe_lossless_int (get "available_qty" position) (pos 0) (some (pos 0)) none in
      if has "available_qty" position
      then (if ltb_ℤ held available then held else available)
      else held

  add_current : Fields F → Option F → Current F → Current F
  add_current p none c =
      let ticker = pad_ticker (text_of (get "ticker" p)) in
      record c {
        malformed = c.malformed ++ ticker ∷ [];
        errors = c.errors ++ malformed_current_weight ticker (get "weight" p) ∷ [];
      }
  add_current p (some weight) c = record c {
    weights = insert (pad_ticker (text_of (get "ticker" p))) weight c.weights;
  }

  -- the loop over `current_positions` for the weights
  unfoldable pub read_current : List (Fields F) → Current F → Current F
  unfolding add_current
  read_current [] c = c
  read_current (p ∷ ps) c =
      let weight = parse_weight (get_or "weight" (float (py.of_int (pos 0))) p) in
      read_current ps (if has "ticker" p then add_current p weight c else c)

  -- `current_qty`
  unfoldable pub read_held : List (Fields F) → Dict ℤ → Dict ℤ
  read_held [] d = d
  read_held (p ∷ ps) d = read_held ps (
      if has "ticker" p
      then insert (pad_ticker (text_of (get "ticker" p))) (sellable_qty p) d
      else d)

  unfoldable pub size : F → F
  size x = if py.lt x (py.of_int (pos 0)) then py.neg x else x

  sum_changes : F → Dict F → Dict F → List String → F
  unfolding size
  sum_changes total current targets [] = total
  sum_changes total current targets (ticker ∷ tickers) =
      let zero = py.of_int (pos 0) in
      sum_changes
        (py.add total
          (size (py.sub (weight_or zero ticker targets) (weight_or zero ticker current))))
        current targets tickers

  -- the tickers of both dicts
  unfoldable pub all_tickers : Dict F → Dict F → List String
  all_tickers current targets = sorted_set (map (λ e. e.0) current ++ map (λ e. e.0) targets)

  -- `_compute_turnover`
  unfoldable pub compute_turnover : Dict F → Dict F → F
  unfolding sum_changes
  compute_turnover current targets =
      py.div (sum_changes (py.of_int (pos 0)) current targets (all_tickers current targets))
        (py.of_int (pos 2))

  -- the literal 1e-9
  unfoldable pub negligible : F
  negligible = py.div (py.of_int (pos 1)) (py.of_int (pos 1000000000))

  unfoldable pub reason_of : Basis F → String → OrderReason
  reason_of b ticker =
      let zero = py.of_int (pos 0) in
      if is_in ticker b.exits
      then risk_reduce
      else if py.eq (weight_or zero ticker b.targets) zero
          && py.lt zero (weight_or zero ticker b.current)
      then exit
      else rebalance

  -- an order of a quantity that is not nothing
  unfoldable pub add_order : Basis F → String → Side → ℤ → F → F → Orders F → Orders F
  add_order b ticker side qty delta_w price o = record o {
    deltas =
        o.deltas
        ++ record {
          ticker = ticker;
          side = side;
          qty = qty;
          reason = reason_of b ticker;
          delta_weight = delta_w;
          price = price;
        }
          ∷ [];
  }

  -- a sale of that quantity, if it is not nothing
  unfoldable pub sell_some : Basis F → String → ℤ → F → F → Orders F → Orders F
  sell_some b ticker sold delta_w price o =
      if leb_ℤ sold (pos 0)
      then with_error (sell_qty_unavailable ticker delta_w (held_qty b ticker)) o
      else add_order b ticker sell sold delta_w price o

  -- a sale of at most what is held
  unfoldable pub add_sale : Basis F → String → ℤ → F → F → Orders F → Orders F
  add_sale b ticker qty delta_w price o =
      let held = held_qty b ticker in
      let cap : SellCap = record { ticker = ticker; requested_qty = qty; capped_qty = held } in
      if ltb_ℤ held qty
      then sell_some b ticker held delta_w price (record o { caps = o.caps ++ cap ∷ [] })
      else sell_some b ticker qty delta_w price o

  unfoldable pub add_sized : Basis F → String → ℤ → F → F → Orders F → Orders F
  add_sized b ticker qty delta_w price o =
      if leb_ℤ qty (pos 0)
      then with_error (lot_size_error ticker delta_w price) o
      else if py.lt (py.of_int (pos 0)) delta_w
      then add_order b ticker buy qty delta_w price o
      else add_sale b ticker qty delta_w price o

  -- `(target_w - current_w) * scale_factor`
  unfoldable pub delta_of : Basis F → String → F
  delta_of b ticker =
      let zero = py.of_int (pos 0) in
      py.mul (py.sub (weight_or zero ticker b.targets) (weight_or zero ticker b.current))
        b.scale_factor

  -- the quantity before it is rounded down
  unfoldable pub qty_of : Basis F → F → F → F
  unfolding size
  qty_of b delta_w price = py.div (size (py.mul delta_w b.portfolio_value)) price

  unfoldable pub add_priced : Basis F → String → F → Option F → Orders F → Option (Orders F)
  add_priced b ticker delta_w none o = some (with_error (price_unavailable ticker none) o)
  add_priced b ticker delta_w (some price) o =
      if py.le price (py.of_int (pos 0))
      then some (with_error (price_unavailable ticker (some price)) o)
      else if py.is_finite (qty_of b delta_w price)
      then some (add_sized b ticker (py.floor (qty_of b delta_w price)) delta_w price o)
      else none

  -- One ticker of the loop; `none` where `math.floor` raises.
  unfoldable pub order_step : Basis F → String → Orders F → Option (Orders F)
  unfolding size negligible add_priced
  order_step b ticker o =
      if is_in ticker b.malformed
      then some o
      else if py.lt (size (delta_of b ticker)) negligible
      then some o
      else add_priced b ticker (delta_of b ticker) (lookup ticker b.prices) o

  -- the loop
  unfoldable pub order_loop : Basis F → List String → Orders F → Option (Orders F)
  order_loop b [] o = some o
  order_loop b (ticker ∷ tickers) o = elim (order_step b ticker o) [
    | none ↦ none
    | some o' ↦ order_loop b tickers o'
  ]
