-- ===== src/Portfolio/Accepted.antt =====
-- The execution gateway takes the orders of a plan.
use flephant.Base.{
  ℕ, ◌+◌, String, true, false, not, ◌≡◌, refl, ◌∙◌, ap, none, List, [], ◌∷◌, ◌++◌, All, length,
  length-append, str_eq, if_cases, arith,
}
use flephant.Base.Int.{pos, ◌<ℤ◌}
use flephant.Base.Result.{Result, ok}
use flephant.Python.Text.{lower, strip, fill, zfill}
use flephant.Python.Padding.{fill_nothing}
use flephant.Python.Value.{Value, Fields, Runtime, str, int, list, dict, or_else, text_of}
use flephant.Utils.SafeCast.{is_in, safe_float, safe_lossless_int}
use flephant.Utils.TickerUtils.{pad_ticker, is_valid_ticker}
use flephant.Execution.Gateway.Types.{Gateway, OrderError}
use flephant.Execution.Gateway.Normalize.{
  allowed_order_delta_reasons, or_limit, valid_order_delta, normalize_delta, normalize_loop,
  normalize_order_deltas, order_type_of,
}
use flephant.Portfolio.Types.{
  PortfolioManager, Side, buy, sell, OrderReason, risk_reduce, exit, rebalance, OrderDelta, Patch,
  side_text, reason_text, delta_fields, delta_items,
}
use flephant.Portfolio.Orders.{Basis}
use flephant.Portfolio.Plan.{Request, plan, basis_of}
use flephant.Portfolio.Safety.{IsSafe, plan-IsSafe}

side_read :
    (s : Side)
    → (lower (side_text s) ≡ side_text s) × (is_in (side_text s) ("buy" ∷ "sell" ∷ []) ≡ true)
unfolding side_text lower is_in
side_read buy = (refl, refl)
side_read sell = (refl, refl)

reason_read :
    (F : Type 0) ⦃py : Runtime F⦄ (r : OrderReason)
    → is_in
        (strip (text_of (or_else {F = F} (str (reason_text r)) (str ""))))
        allowed_order_delta_reasons
      ≡ true
unfolding reason_text strip text_of or_else is_in
reason_read F risk_reduce = refl
reason_read F exit = refl
reason_read F rebalance = refl

padded : (ticker : String) → is_valid_ticker ticker ≡ true → pad_ticker ticker ≡ ticker
unfolding is_valid_ticker pad_ticker zfill
padded ticker h = ap (λ n. fill n ticker) {y = 0} (ground (arith, h)) ∙ fill_nothing ticker

module _ {F : Type 0} ⦃py : Runtime F⦄ where
  -- A ticker of six digits, not all of them 0, and a price that is finite.
  abbrev pub IsListed : OrderDelta F → Type 0
  IsListed od =
      (is_valid_ticker od.ticker ≡ true)
      × (str_eq od.ticker "000000" ≡ false)
      × (py.is_finite od.price ≡ true)

  module _ (g : Gateway F) (limit : is_in "00" (or_limit g.allowed_order_types) ≡ true) where
    delta_valid :
        (od : OrderDelta F)
        → pos 0 <ℤ od.qty
        → py.le od.price (py.of_int (pos 0)) ≡ false
        → IsListed od
        → valid_order_delta
            (pad_ticker od.ticker)
            (lower (side_text od.side))
            (safe_lossless_int {F = F} (int od.qty) (pos 0) none none)
            (safe_float (Value.float od.price) (py.of_int (pos 0)) none none)
            "00"
            g.allowed_order_types
          ≡ true
    unfolding valid_order_delta safe_lossless_int safe_float
    delta_valid od positive above listed = ground (
      arith,
      positive,
      above,
      limit,
      listed.0,
      listed.1,
      listed.2,
      side_read od.side,
      padded od.ticker listed.0,
    )

    -- A delta is taken.
    abbrev IsTaken : Result (OrderError F) (Fields F) → Type 0
    IsTaken r = (d : Fields F) × (r ≡ ok d)

    normalize_delta-delta_fields :
        (idx : ℕ) (od : OrderDelta F)
        → pos 0 <ℤ od.qty
        → py.le od.price (py.of_int (pos 0)) ≡ false
        → IsListed od
        → IsTaken (normalize_delta g idx (dict (delta_fields od)))
    unfolding normalize_delta delta_fields order_type_of or_else text_of
    normalize_delta-delta_fields idx od positive above listed =
        if_cases IsTaken
          (not (
            valid_order_delta (pad_ticker od.ticker) (lower (side_text od.side))
              (safe_lossless_int {F = F} (int od.qty) (pos 0) none none)
              (safe_float (Value.float od.price) (py.of_int (pos 0)) none none) "00"
              g.allowed_order_types))
          (λ bad. absurd (ground (arith, bad, delta_valid od positive above listed)))
          λ good.
            if_cases IsTaken
              (not (
                is_in (strip (text_of (or_else {F = F} (str (reason_text od.reason)) (str ""))))
                  allowed_order_delta_reasons))
              (λ bad. absurd (ground (arith, bad, reason_read F od.reason))) (λ known. (_, refl))

    -- The errors of a run of the loop are none but the given ones, and each delta is added.
    abbrev AddsAll :
        List (OrderDelta F)
        → List (Fields F) × List (OrderError F)
        → List (Fields F) × List (OrderError F)
        → Type 0
    AddsAll ods before after =
        (after.1 ≡ before.1) × (length after.0 ≡ length before.0 + length ods)

    normalize_loop-delta_items :
        (b : Basis F) (idx : ℕ) (ods : List (OrderDelta F))
        (acc : List (Fields F) × List (OrderError F))
        → All (IsSafe b) ods
        → All IsListed ods
        → AddsAll ods acc (normalize_loop g idx (delta_items ods) acc)
    unfolding normalize_loop delta_items
    normalize_loop-delta_items b idx [] acc safe listed = (refl, omega arith)
    normalize_loop-delta_items b idx (od ∷ ods) (normalized, errors) safe listed =
        let (d, taken) =
          normalize_delta-delta_fields idx od (safe.0).positive (safe.0).priced.1 listed.0 in
        let rest =
          normalize_loop-delta_items b (idx + 1) ods (normalized ++ d ∷ [], errors) safe.1
            listed.1 in
        rw (taken, normalize_loop)
          (rest.0, omega (arith, rest.1, length-append normalized (d ∷ [])))

    -- The gateway takes every order of a plan: where each has a ticker of six digits, not all 0, and a
    -- finite price, and the gateway allows limit orders, normalizing them gives no error and as many
    -- orders as were planned.
    pub normalize_order_deltas-plan :
        (m : PortfolioManager F) (r : Request F) (p : Patch F)
        → plan m r ≡ ok p
        → All IsListed p.order_deltas
        → let (normalized, errors) = normalize_order_deltas g (list (delta_items p.order_deltas)) in
          (errors ≡ []) × (length normalized ≡ length p.order_deltas)
    unfolding normalize_order_deltas
    normalize_order_deltas-plan m r p planned listed =
        let done =
          normalize_loop-delta_items (basis_of m r) 0 p.order_deltas ([], [])
            ((plan-IsSafe m r).1 p planned) listed in
        (done.0, omega (arith, done.1))
