-- ===== src/Portfolio/Safety.antt =====
-- What holds of every order that is planned.
use flephant.Base.{
  String, true, false, ◌≡◌, refl, ◌≢◌, Option, none, some, List, [], ◌∷◌, any, arith, All,
  All-append, lookup, if_cases, option_cases, subst,
}
use flephant.Base.Int.{ℤ, pos, ◌≤ℤ◌, ◌<ℤ◌, ltb_ℤ, leb_ℤ}
use flephant.Base.Result.{Result, ok, err}
use flephant.Python.Value.{Runtime}
use flephant.Utils.SafeCast.{is_in}
use flephant.Portfolio.Types.{
  PortfolioManager, Side, buy, sell, risk_reduce, OrderDelta, PlanRaised, negative_qty, Patch,
}
use flephant.Portfolio.Orders.{
  Orders, Basis, held_qty, no_orders, with_error, reason_of, add_order, sell_some, add_sale,
  add_sized, size, negligible, delta_of, qty_of, add_priced, order_step, order_loop, all_tickers,
}
use flephant.Portfolio.Plan.{
  Request, has_negative, planned_targets, current_of, basis_of, patch_of, planned, plan,
}

module _ {F : Type 0} ⦃py : Runtime F⦄ where
  -- An order of a positive quantity, at a price above 0, of a ticker whose weights could be read; a
  -- sale is of no more than is held; what the cold path gives up is marked so.
  pub record IsSafe (b : Basis F) (od : OrderDelta F) : Type 0 where
    pub positive : pos 0 <ℤ od.qty
    pub covered : od.side ≡ sell → od.qty ≤ℤ held_qty b od.ticker
    pub priced :
        (lookup od.ticker b.prices ≡ some od.price) × (py.le od.price (py.of_int (pos 0)) ≡ false)
    pub readable : is_in od.ticker b.malformed ≡ false
    pub marked : is_in od.ticker b.exits ≡ true → od.reason ≡ risk_reduce

  module _ (b : Basis F) where
    abbrev AllSafe : Orders F → Type 0
    AllSafe o = All (IsSafe b) o.deltas

    module _ (ticker : String) (delta_w price : F) (readable : is_in ticker b.malformed ≡ false)
        (there : lookup ticker b.prices ≡ some price)
        (above : py.le price (py.of_int (pos 0)) ≡ false) where
      marked_exit : is_in ticker b.exits ≡ true → reason_of b ticker ≡ risk_reduce
      unfolding reason_of
      marked_exit e = rw e refl

      order-AllSafe :
          (side : Side) (qty : ℤ) (o : Orders F)
          → pos 0 <ℤ qty
          → (side ≡ sell → qty ≤ℤ held_qty b ticker)
          → AllSafe o
          → AllSafe (add_order b ticker side qty delta_w price o)
      unfolding add_order
      order-AllSafe side qty o p c h = All-append (IsSafe b) o.deltas _ h (
        record {
          positive = p;
          covered = c;
          priced = (there, above);
          readable = readable;
          marked = marked_exit;
        },
        tt,
      )

      sold-AllSafe :
          (sold : ℤ) (o : Orders F)
          → sold ≤ℤ held_qty b ticker
          → AllSafe o
          → AllSafe (sell_some b ticker sold delta_w price o)
      unfolding sell_some with_error
      sold-AllSafe sold o c h =
          if_cases AllSafe (leb_ℤ sold (pos 0)) (λ n. h)
            (λ n. order-AllSafe sell sold o (ground (arith, n)) (λ s. c) h)

      sale-AllSafe :
          (qty : ℤ) (o : Orders F) → AllSafe o → AllSafe (add_sale b ticker qty delta_w price o)
      unfolding add_sale
      sale-AllSafe qty o h =
          if_cases AllSafe (ltb_ℤ (held_qty b ticker) qty)
            (λ more. sold-AllSafe (held_qty b ticker) _ (omega arith) h)
            (λ less. sold-AllSafe qty o (ground (arith, less)) h)

      sized-AllSafe :
          (qty : ℤ) (o : Orders F) → AllSafe o → AllSafe (add_sized b ticker qty delta_w price o)
      unfolding add_sized with_error
      sized-AllSafe qty o h =
          if_cases AllSafe (leb_ℤ qty (pos 0)) (λ n. h)
            λ p.
              if_cases AllSafe (py.lt (py.of_int (pos 0)) delta_w)
                (λ up. order-AllSafe buy qty o (ground (arith, p)) (λ s. cc) h)
                (λ down. sale-AllSafe qty o h)

    -- If there are orders, they are safe.
    abbrev StaySafe : Option (Orders F) → Type 0
    StaySafe q = (o : Orders F) → q ≡ some o → AllSafe o

    some-StaySafe : (o : Orders F) → AllSafe o → StaySafe (some o)
    some-StaySafe o h o' e = subst AllSafe {x = o} {y = o'} (ground (arith, e)) h

    priced-StaySafe :
        (ticker : String) (delta_w : F) (price : Option F) (o : Orders F)
        → is_in ticker b.malformed ≡ false
        → lookup ticker b.prices ≡ price
        → AllSafe o
        → StaySafe (add_priced b ticker delta_w price o)
    unfolding add_priced with_error
    priced-StaySafe ticker delta_w none o readable there h = some-StaySafe _ h
    priced-StaySafe ticker delta_w (some price) o readable there h =
        if_cases StaySafe (py.le price (py.of_int (pos 0))) (λ low. some-StaySafe _ h)
          λ above.
            if_cases StaySafe (py.is_finite (qty_of b delta_w price))
              (λ finite. some-StaySafe _ (
                sized-AllSafe ticker delta_w price readable there above
                  (py.floor (qty_of b delta_w price)) o h))
              (λ n o' e. cc)

    step-StaySafe : (ticker : String) (o : Orders F) → AllSafe o → StaySafe (order_step b ticker o)
    unfolding order_step
    step-StaySafe ticker o h =
        if_cases StaySafe (is_in ticker b.malformed) (λ bad. some-StaySafe o h)
          λ readable.
            if_cases StaySafe (py.lt (size (delta_of b ticker)) negligible)
              (λ small. some-StaySafe o h)
              (λ large.
                priced-StaySafe ticker (delta_of b ticker) (lookup ticker b.prices) o readable refl
                  h)

    loop-StaySafe :
        (tickers : List String) (o : Orders F) → AllSafe o → StaySafe (order_loop b tickers o)
    unfolding order_loop
    loop-StaySafe [] o h = some-StaySafe o h
    loop-StaySafe (ticker ∷ tickers) o h =
        option_cases StaySafe (order_step b ticker o) (λ e o' k. cc)
          (λ o' e. loop-StaySafe tickers o' (step-StaySafe ticker o h o' e))

    not_negative : (ods : List (OrderDelta F)) → All (IsSafe b) ods → has_negative ods ≡ false
    unfolding has_negative any
    not_negative [] h = refl
    not_negative (od ∷ ods) h = ground (arith, (h.0).positive, not_negative ods h.1)

  module _ (m : PortfolioManager F) (r : Request F) where
    -- The answer is a patch with safe orders, or the exception of a float that is not finite.
    abbrev IsSound : Result PlanRaised (Patch F) → Type 0
    IsSound x =
        (x ≢ err negative_qty)
        × ((p : Patch F) → x ≡ ok p → All (IsSafe (basis_of m r)) p.order_deltas)

    planned-IsSound : (q : Option (Orders F)) → StaySafe (basis_of m r) q → IsSound (planned m r q)
    unfolding planned patch_of
    planned-IsSound none h = (λ e. cc, λ p e. cc)
    planned-IsSound (some o) h =
        let safe = h o refl in
        if_cases IsSound (has_negative o.deltas)
          (λ n. absurd (ground (arith, n, not_negative (basis_of m r) o.deltas safe)))
          λ n. (
            λ e. cc,
            λ p e.
                subst (All (IsSafe (basis_of m r))) {x = o.deltas} {y = p.order_deltas}
                  (ground (arith, e)) safe,
          )

    -- `plan` never finds a negative quantity among its own orders. Every order that it gives is of a
    -- positive quantity, at a known price above 0, of a ticker whose weights can be read; a sale is
    -- of no more than is held and can be sold, and what the cold path gives up is marked as a
    -- reduction of risk.
    pub plan-IsSafe :
        (plan m r ≢ err negative_qty)
        × ((p : Patch F) → plan m r ≡ ok p → All (IsSafe (basis_of m r)) p.order_deltas)
    unfolding plan
    plan-IsSafe = planned-IsSound _ (
        loop-StaySafe (basis_of m r)
          (all_tickers (current_of m r).weights (planned_targets m r).weights) no_orders tt)
