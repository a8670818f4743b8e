-- ===== src/Execution/Gateway/Normalize.antt =====
-- `_normalize_order_deltas` and what it calls: tick bands, limit prices, the shape of an order.
use flephant.Base.{
  ℕ, ◌+◌, String, Bool, true, false, not, ◌&&◌, ◌||◌, Option, none, some, List, [], ◌∷◌, ◌++◌,
  str_eq, if◌then◌else◌,
}
use flephant.Base.Result.{Result, ok, err}
use flephant.Base.Int.{ℤ, pos, negsuc, ◌*ℤ◌, ltb_ℤ, leb_ℤ}
use flephant.Python.Text.{lower, strip}
use flephant.Python.Value.{
  Value, Items, Fields, Runtime, null, int, float, str, list, dict, nil, cons, end, field, get,
  get_or, put, or_else, text_of,
}
use flephant.Utils.SafeCast.{safe_float, safe_lossless_int, is_in}
use flephant.Utils.TickerUtils.{pad_ticker, is_valid_ticker}
use flephant.Execution.Gateway.Types.{
  Band, Gateway, OrderError, order_deltas_must_be_list, order_delta_must_be_dict,
  invalid_order_delta, invalid_order_delta_reason,
}

abbrev pub allowed_order_delta_reasons : List String
allowed_order_delta_reasons =
    "rebalance" ∷ "exit" ∷ "risk_reduce" ∷ "cash_raise" ∷ "paper_trading_probe" ∷ []

-- `a or {"00"}`
unfoldable pub or_limit : List String → List String
or_limit [] = "00" ∷ []
or_limit (a ∷ as') = a ∷ as'

module _ {F : Type 0} ⦃py : Runtime F⦄ where
  -- `_valid_order_delta`
  unfoldable pub valid_order_delta : String → String → ℤ → F → String → List String → Bool
  unfolding or_limit
  valid_order_delta ticker side qty price order_type allowed_order_types =
      if str_eq ticker "000000" || not (is_valid_ticker ticker)
      then false
      else if not (is_in side ("buy" ∷ "sell" ∷ []))
      then false
      else if leb_ℤ qty (pos 0)
      then false
      else if not (is_in order_type (or_limit allowed_order_types))
      then false
      else if not (str_eq order_type "01") && py.le price (py.of_int (pos 0))
      then false
      else true

  -- a band of the configuration, if the item has a usable one
  band_of : Value F → List Band
  band_of (dict item) =
      let min_price = safe_lossless_int (get "min_price" item) (negsuc 0) none none in
      let tick_size = safe_lossless_int (get "tick_size" item) (pos 0) none none in
      if ltb_ℤ min_price (pos 0) || leb_ℤ tick_size (pos 0)
      then []
      else record { min_price = min_price; tick_size = tick_size } ∷ []
  band_of _ = []

  unfoldable pub bands_of : Items F → List Band
  unfolding band_of
  bands_of nil = []
  bands_of (cons v vs) = band_of v ++ bands_of vs

-- One step of `bands.sort(key=min_price)`: before the first band with a greater key.
unfoldable pub insert_band : Band → List Band → List Band
insert_band b [] = b ∷ []
insert_band b (c ∷ cs) =
    let later = c ∷ insert_band b cs in if leb_ℤ b.min_price c.min_price then b ∷ c ∷ cs else later

unfoldable pub sort_bands : List Band → List Band
unfolding insert_band
sort_bands [] = []
sort_bands (b ∷ bs) = insert_band b (sort_bands bs)

module _ {F : Type 0} ⦃py : Runtime F⦄ where
  -- `_load_price_tick_bands`; `[]` where the code raises ValueError
  unfoldable pub load_price_tick_bands : Value F → List Band
  unfolding bands_of sort_bands
  load_price_tick_bands (list raw) = sort_bands (bands_of raw)
  load_price_tick_bands _ = []

  -- the loop of `_tick_size_for_price`, which stops at the first band above the price
  unfoldable pub tick_loop : F → ℤ → List Band → ℤ
  tick_loop price tick_size [] = tick_size
  tick_loop price tick_size (b ∷ bs) =
      let rest = tick_loop price b.tick_size bs in
      if py.le (py.of_int b.min_price) price then rest else tick_size

  unfoldable pub tick_size_for_price : Gateway F → F → ℤ
  unfolding tick_loop
  tick_size_for_price g price = tick_loop price g.first_band.tick_size (g.first_band ∷ g.more_bands)

  -- the price in whole ticks: up for a buy, down for a sell, and at least one tick
  tick_price : String → F → ℤ → ℤ
  tick_price side price tick_size =
      let quotient = py.div price (py.of_int tick_size) in
      if str_eq side "buy"
      then py.ceil quotient *ℤ tick_size
      else (let down = py.floor quotient *ℤ tick_size in
          if leb_ℤ down (pos 0) then tick_size else down)

  adjustment : String → F → F → ℤ → Fields F
  adjustment side price normalized tick_size = field "original_price" (float price) (
      field "normalized_price" (float normalized) (
        field "tick_size" (int tick_size)
          (field "side" (str side) (field "method" (str "ceil_for_buy_floor_for_sell") end))))

  -- `_normalize_limit_price`: the price, and the record of the change if there is one
  unfoldable pub normalize_limit_price : Gateway F → String → F → String → F × Option (Fields F)
  unfolding tick_price adjustment
  normalize_limit_price g side price order_type =
      if str_eq order_type "01" || py.le price (py.of_int (pos 0))
      then (price, none)
      else (let tick_size = tick_size_for_price g price in
          let normalized = py.of_int (tick_price side price tick_size) in
          if py.eq normalized price
          then (normalized, none)
          else (normalized, some (adjustment side price normalized tick_size)))

  with_adjustment : Option (Fields F) → Fields F → Fields F
  with_adjustment none od = od
  with_adjustment (some a) od = put "price_tick_adjustment" (dict a) od

  -- the dict that `normalized_od` becomes
  normalized_delta : Gateway F → Fields F → String → String → ℤ → F → String → String → Fields F
  unfolding with_adjustment
  normalized_delta g od ticker side qty price order_type reason =
      let (normalized, tick_adjustment) = normalize_limit_price g side price order_type in
      with_adjustment tick_adjustment (
        put "reason" (str reason) (
          put "order_type" (str order_type) (
            put "price" (float normalized)
              (put "qty" (int qty) (put "side" (str side) (put "ticker" (str ticker) od))))))

  -- `str(od.get("order_type", "00") or "00")`
  unfoldable pub order_type_of : Fields F → String
  order_type_of od = text_of (or_else (get_or "order_type" (str "00") od) (str "00"))

  -- One round of the loop: a normalized delta, or an error.
  unfoldable pub normalize_delta : Gateway F → ℕ → Value F → Result (OrderError F) (Fields F)
  unfolding order_type_of normalized_delta
  normalize_delta g idx (dict od) =
      let ticker = pad_ticker (text_of (get_or "ticker" (str "") od)) in
      let side = lower (text_of (get_or "side" (str "") od)) in
      let qty = safe_lossless_int (get_or "qty" (int (pos 0)) od) (pos 0) none none in
      let price = safe_float (get "price" od) (py.of_int (pos 0)) none none in
      let order_type = order_type_of od in
      let reason = strip (text_of (or_else (get_or "reason" (str "") od) (str ""))) in
      if not (valid_order_delta ticker side qty price order_type g.allowed_order_types)
      then err (invalid_order_delta idx ticker side qty price order_type)
      else if not (is_in reason allowed_order_delta_reasons)
      then err (invalid_order_delta_reason idx ticker reason)
      else ok (normalized_delta g od ticker side qty price order_type reason)
  normalize_delta g idx _ = err (order_delta_must_be_dict idx)

  -- Adds the outcome of one round to the two lists.
  add_outcome :
      Result (OrderError F) (Fields F)
      → List (Fields F) × List (OrderError F)
      → List (Fields F) × List (OrderError F)
  add_outcome (ok od) (normalized, errors) = (normalized ++ od ∷ [], errors)
  add_outcome (err e) (normalized, errors) = (normalized, errors ++ e ∷ [])

  unfoldable pub normalize_loop :
      Gateway F
      → ℕ
      → Items F
      → List (Fields F) × List (OrderError F)
      → List (Fields F) × List (OrderError F)
  unfolding add_outcome
  normalize_loop g idx nil acc = acc
  normalize_loop g idx (cons v vs) acc =
      normalize_loop g (idx + 1) vs (add_outcome (normalize_delta g idx v) acc)

  -- `_normalize_order_deltas`: the normalized deltas and the errors
  unfoldable pub normalize_order_deltas :
      Gateway F → Value F → List (Fields F) × List (OrderError F)
  normalize_order_deltas g null = ([], [])
  normalize_order_deltas g (list raw) = normalize_loop g 0 raw ([], [])
  normalize_order_deltas g _ = ([], order_deltas_must_be_list ∷ [])
