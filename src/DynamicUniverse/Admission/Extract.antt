-- ===== src/DynamicUniverse/Admission/Extract.antt =====
-- What the engine reads from an event: the ticker of a scope, the return of a price, and the one
-- candidate of a snapshot of the market.
use Prim.Native.Char.{code}
use Prim.Native.String.{◌++◌ as join}
use flephant.Base.{
  String, Bool, false, not, ◌&&◌, ◌||◌, Option, none, some, List, [], ◌∷◌, ◌==◌, str_eq,
  if◌then◌else◌,
}
use flephant.Base.Int.{pos, negsuc}
use flephant.Base.Result.{Result, ok, err, ◌>>=◌}
use flephant.Python.Text.{zfill, isdigit}
use flephant.Python.Value.{
  Value, Fields, Runtime, Raised, type_error, attribute_error, value_error, float, str, list, dict,
  nil, cons, end, field, get, get_or, put, items, is_null, nonempty, truthy, or_else, text_of,
}
use flephant.Utils.SafeCast.{to_float}

-- The rest of a text after a prefix.
strip_prefix : String → String → Option String
strip_prefix String.[] s = some s
strip_prefix (String.◌∷◌ c p) String.[] = none
strip_prefix (String.◌∷◌ c p) (String.◌∷◌ d s) =
    let rest = strip_prefix p s in if code c == code d then rest else none

-- the ticker of a scope that is written out
scope_ticker : String → String
unfolding strip_prefix
scope_ticker scope = elim (strip_prefix "ticker:" scope) [
  | some rest ↦ zfill 6 rest
  | none ↦ if isdigit scope then zfill 6 scope else ""
]

-- a text that is a ticker
unfoldable pub is_ticker : String → Bool
is_ticker ticker = nonempty ticker && not (str_eq ticker "000000")

module _ {F : Type 0} where
  -- `value == "..."`
  unfoldable pub is_text : String → Value F → Bool
  is_text expected (str s) = str_eq s expected
  is_text expected _ = false

  -- what `float(value)` raises
  unfoldable pub float_error : Value F → Raised
  float_error (str s) = value_error
  float_error _ = type_error

  -- `{**base, **more}`
  unfoldable pub merge : Fields F → Fields F → Fields F
  merge base end = base
  merge base (field k v more) = merge (put k v base) more

-- the greatest absolute return so far, and the snapshot that has it
abbrev pub Best : Type 0 → Type 0
Best F = F × Option (String × Fields F)

abbrev return_keys : List String
return_keys = "return_pct" ∷ "day_change_pct" ∷ "change_pct" ∷ "pct_change" ∷ []

module _ {F : Type 0} ⦃py : Runtime F⦄ where
  -- `_ticker_from_scope`
  unfoldable pub ticker_from_scope : Value F → String
  unfolding scope_ticker
  ticker_from_scope scope = scope_ticker (text_of (or_else scope (str "")))

  -- `float(value)`
  unfoldable pub float_of : Value F → Result Raised F
  float_of value = elim (to_float value) [ none ↦ err (float_error value) | some x ↦ ok x ]

  -- `abs(x)`
  unfoldable pub absolute : F → F
  absolute x = if py.lt x (py.of_int (pos 0)) then py.neg x else x

  return_of : List String → Fields F → Result Raised F
  return_of [] payload = ok (py.of_int (pos 0))
  return_of (key ∷ keys) payload =
      let rest = return_of keys payload in
      if is_null (get key payload) then rest else float_of (get key payload)

  -- `_event_return_pct`
  unfoldable pub event_return_pct : Value F → Result Raised F
  unfolding return_of
  event_return_pct (dict payload) = return_of return_keys payload
  event_return_pct _ = err attribute_error

  better : String → Fields F → Best F → F → Best F
  better ticker item best ret =
      if py.lt best.0 (absolute ret)
      then (
        absolute ret,
        some (ticker, put "return_pct" (float ret) (put "ticker" (str ticker) item)),
      )
      else best

  best_step : Value F → Best F → Result Raised (Best F)
  unfolding better
  best_step (dict item) best =
      let ticker = zfill 6 (text_of (get_or "ticker" (str "") item)) in
      if is_ticker ticker
      then (event_return_pct (dict item) >>= λ ret. ok (better ticker item best ret))
      else ok best
  best_step _ best = ok best

  best_of : List (Value F) → Best F → Result Raised (Best F)
  unfolding best_step
  best_of [] best = ok best
  best_of (item ∷ rest) best = best_step item best >>= best_of rest

  with_candidate : Fields F → Fields F → Value F → Best F → Fields F
  with_candidate event payload snapshots (top, none) = event
  with_candidate event payload snapshots (top, some (ticker, best)) =
      put "payload" (dict (put "snapshots" snapshots (merge payload best)))
        (put "scope" (str (join "ticker:" ticker)) (put "ticker" (str ticker) event))

  normalized_payload : Fields F → Value F → Result Raised (Fields F)
  unfolding best_of with_candidate
  normalized_payload event (dict payload) = elim (get_or "snapshots" (list nil) payload) [
    | list (cons v vs) ↦ best_of (items (cons v vs)) (py.of_int (negsuc 0), none) >>= λ best.
        ok (with_candidate event payload (list (cons v vs)) best)
    | _ ↦ ok event
  ]
  normalized_payload event _ = err attribute_error

  -- `event.get("payload", {}) or {}`
  unfoldable pub payload_of : Fields F → Value F
  payload_of event = or_else (get_or "payload" (dict end) event) (dict end)

  -- `_normalize_price_snapshot_candidate`
  unfoldable pub normalize_price_snapshot_candidate : Fields F → Result Raised (Fields F)
  unfolding normalized_payload
  normalize_price_snapshot_candidate event =
      if not (is_text "price_snapshot" (get "event_type" event))
      then ok event
      else if truthy (get "ticker" event) || nonempty (ticker_from_scope (get "scope" event))
      then ok event
      else normalized_payload event (payload_of event)
