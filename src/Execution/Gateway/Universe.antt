-- ===== src/Execution/Gateway/Universe.antt =====
-- The active trade universe: which tickers a paper or live order may name. A set of tickers is a
-- list here: only membership and emptiness are asked for.
use Prim.Native.Nat.{Ordering}
use Prim.Native.String.{compare}
use flephant.Base.{
  String, Bool, not, ◌&&◌, Option, none, some, List, [], ◌∷◌, ◌++◌, str_eq, if◌then◌else◌, keep,
  map,
}
use flephant.Base.Result.{Result, ok, err, ◌>>=◌}
use flephant.Python.Text.{strip}
use flephant.Python.Value.{
  Value, Items, Fields, Runtime, Raised, type_error, attribute_error, bool, int, float, str, list,
  dict, nil, cons, end, field, get, get_or, or_else, truthy, text_of,
}
use flephant.Utils.SafeCast.{is_in}
use flephant.Utils.TickerUtils.{pad_ticker, is_valid_ticker}
use flephant.Execution.Gateway.Types.{
  Gateway, Reason, Env, World, active_trade_universe_empty, order_ticker_not_active_universe,
}

-- Inserts into a strictly increasing list, once.
unfoldable pub insert_text : String → List String → List String
insert_text s [] = s ∷ []
insert_text s (t ∷ ts) =
    let rest = insert_text s ts in
    elim (compare s t) [ Ordering.lt ↦ s ∷ t ∷ ts | Ordering.eq ↦ t ∷ ts | Ordering.gt ↦ t ∷ rest ]

-- `sorted({...})`
unfoldable pub sorted_set : List String → List String
unfolding insert_text
sorted_set [] = []
sorted_set (s ∷ ss) = insert_text s (sorted_set ss)

module _ {F : Type 0} ⦃py : Runtime F⦄ where
  has_status : String → Fields F → Bool
  has_status expected d = str_eq (strip (text_of (get_or "status" (str "") d))) expected

  -- the ticker of an active stock, if it has a usable one
  stock_ticker : Value F → List String
  unfolding has_status
  stock_ticker (dict stock) =
      let ticker = pad_ticker (text_of (get_or "ticker" (str "") stock)) in
      if has_status "active" stock && not (str_eq ticker "000000") && is_valid_ticker ticker
      then ticker ∷ []
      else []
  stock_ticker _ = []

  stock_tickers : Items F → List String
  unfolding stock_ticker
  stock_tickers nil = []
  stock_tickers (cons v vs) = stock_ticker v ++ stock_tickers vs

  -- `for stock in sector.get("stocks") or []`: the parts of a text or the keys of a dict are no
  -- dicts, and are skipped; a number cannot be iterated.
  tickers_of : Value F → Result Raised (List String)
  unfolding stock_tickers
  tickers_of (list stocks) = ok (stock_tickers stocks)
  tickers_of (int n) = if truthy {F = F} (int n) then err type_error else ok []
  tickers_of (float x) = if truthy (float x) then err type_error else ok []
  tickers_of (bool b) = if b then err type_error else ok []
  tickers_of _ = ok []

  sector_tickers : Value F → Result Raised (List String)
  unfolding has_status tickers_of
  sector_tickers (dict sector) =
      if has_status "confirmed" sector then tickers_of (get "stocks" sector) else ok []
  sector_tickers _ = ok []

  sectors_tickers : Fields F → Result Raised (List String)
  unfolding sector_tickers
  sectors_tickers end = ok []
  sectors_tickers (field name sector rest) = do
    here ← sector_tickers sector
    later ← sectors_tickers rest
    ok (here ++ later)

  sectors_of : Value F → Result Raised (List String)
  unfolding sectors_tickers
  sectors_of (dict sectors) = sectors_tickers sectors
  sectors_of _ = ok []

  config_tickers : Value F → Result Raised (List String)
  unfolding sectors_of
  config_tickers (dict config) = sectors_of (or_else (get "sectors" config) (dict end))
  config_tickers _ = err attribute_error

  -- `_load_active_trade_universe`
  unfoldable pub load_active_trade_universe : Option (Value F) → Result Raised (List String)
  unfolding config_tickers
  load_active_trade_universe none = ok []
  load_active_trade_universe (some config) = config_tickers (or_else config (dict end))

  -- `_get_active_trade_universe`: read once, then kept
  unfoldable pub get_active_trade_universe : Env F → World F → Result Raised (List String) × World F
  get_active_trade_universe env w = elim w.active_trade_universe [
    | some universe ↦ (ok universe, w)
    | none ↦ elim (load_active_trade_universe env.universe_config) [
      | ok universe ↦ (ok universe, record w { active_trade_universe = some universe })
      | err e ↦ (err e, w)
    ]
  ]

  -- `str(order_delta.get("ticker", "")).strip()`
  unfoldable pub delta_ticker : Fields F → String
  delta_ticker od = strip (text_of (get_or "ticker" (str "") od))

  unfoldable pub blocked_tickers : List String → List (Fields F) → List String
  unfolding delta_ticker
  blocked_tickers universe ods = keep (λ t. not (is_in t universe)) (map delta_ticker ods)

  unfoldable pub universe_verdict : List String → List (Fields F) → Option (Reason F)
  unfolding blocked_tickers
  universe_verdict [] ods = some active_trade_universe_empty
  universe_verdict (u ∷ us) ods = elim (sorted_set (blocked_tickers (u ∷ us) ods)) [
    | [] ↦ none
    | b ∷ bs ↦ some (order_ticker_not_active_universe (b ∷ bs))
  ]

  -- `_active_universe_rejection`
  unfoldable pub active_universe_rejection :
      Gateway F → Env F → List (Fields F) → World F → Result Raised (Option (Reason F)) × World F
  unfolding universe_verdict
  active_universe_rejection g env ods w =
      if not (is_in g.mode ("paper" ∷ "live" ∷ []))
      then (ok none, w)
      else (let (r, w') = get_active_trade_universe env w in
          elim r [ ok universe ↦ (ok (universe_verdict universe ods), w') | err e ↦ (err e, w') ])
