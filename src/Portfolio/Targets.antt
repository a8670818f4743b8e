-- ===== src/Portfolio/Targets.antt =====
-- The first half of `plan`: the weights that are aimed at, within the limits.
use flephant.Base.{
  ℕ, ◌-◌, String, Bool, not, Option, none, some, List, [], ◌∷◌, ◌++◌, if◌then◌else◌, Dict, lookup,
  insert, keep, map, length, take,
}
use flephant.Base.Int.{ℤ, pos, negsuc, ltb_ℤ}
use flephant.Python.Value.{Value, Fields, Runtime, end, field}
use flephant.Utils.SafeCast.{to_float, safe_float}
use flephant.Utils.TickerUtils.{pad_ticker}
use flephant.Portfolio.Types.{
  PortfolioManager, malformed_target_weight, negative_target_weight, negative_weight,
  max_names_exceeded, max_single_name_exceeded, Targets,
}

module _ {F : Type 0} where
  -- `d.get(key, default)`
  unfoldable pub weight_or : F → String → Dict F → F
  weight_or default key d = elim (lookup key d) [ none ↦ default | some w ↦ w ]

  -- `items[:n]`
  unfoldable pub take_int : ℤ → List (String × F) → List (String × F)
  take_int (pos n) xs = take n xs
  take_int (negsuc n) xs = take (length xs - ℕ.suc n) xs

module _ {F : Type 0} ⦃py : Runtime F⦄ where
  unfoldable pub zero_weight : F
  zero_weight = py.of_int (pos 0)

  -- `_parse_weight`
  unfoldable pub parse_weight : Value F → Option F
  parse_weight value = elim (to_float value) [
    | none ↦ none
    | some weight ↦ if py.is_finite weight then some weight else none
  ]

  add_target : String → Value F → Option F → Targets F → Targets F
  add_target ticker raw none t = record t {
    malformed = t.malformed ++ ticker ∷ [];
    errors = t.errors ++ malformed_target_weight ticker raw ∷ [];
  }
  add_target ticker raw (some weight) t = record t { weights = insert ticker weight t.weights }

  -- the loop over `target_weights`
  unfoldable pub read_targets : Fields F → Targets F → Targets F
  unfolding add_target
  read_targets end t = t
  read_targets (field name raw rest) t =
      read_targets rest (add_target (pad_ticker name) raw (parse_weight raw) t)

  -- `latest_prices_norm`
  unfoldable pub read_prices : Fields F → Dict F → Dict F
  unfolding zero_weight
  read_prices end d = d
  read_prices (field name raw rest) d =
      read_prices rest (insert (pad_ticker name) (safe_float raw zero_weight none none) d)

  -- the exits that the cold path asks for get the weight 0
  unfoldable pub set_exits : List String → Dict F → Dict F
  unfolding zero_weight
  set_exits [] weights = weights
  set_exits (ticker ∷ tickers) weights = set_exits tickers (insert ticker zero_weight weights)

  is_override : Dict F → String → Bool
  unfolding zero_weight
  is_override weights ticker = not (py.eq (weight_or zero_weight ticker weights) zero_weight)

  -- `cold_path_exit_overrides`
  unfoldable pub overrides : Dict F → List String → List String
  unfolding is_override
  overrides weights tickers = keep (is_override weights) tickers

  is_negative : String × F → Bool
  unfolding zero_weight
  is_negative (ticker, weight) = py.lt weight zero_weight

  raised_to_zero : String × F → String × F
  unfolding zero_weight is_negative
  raised_to_zero (ticker, weight) =
      (ticker, if is_negative (ticker, weight) then zero_weight else weight)

  -- negative weights are reported and set to 0
  unfoldable pub without_negatives : Targets F → Targets F
  unfolding is_negative raised_to_zero
  without_negatives t =
      let found = keep is_negative t.weights in
      record t {
        weights = map raised_to_zero t.weights;
        errors = t.errors ++ map (λ e. negative_target_weight e.0 e.1) found;
        violations = t.violations ++ map (λ e. negative_weight e.0 e.1) found;
      }

  -- One step of the stable sort by weight, the greatest first.
  unfoldable pub insert_by_weight : String × F → List (String × F) → List (String × F)
  insert_by_weight e [] = e ∷ []
  insert_by_weight e (d ∷ ds) =
      let later = insert_by_weight e ds in if py.lt e.1 d.1 then d ∷ later else e ∷ d ∷ ds

  unfoldable pub sorted_by_weight : List (String × F) → List (String × F)
  unfolding insert_by_weight
  sorted_by_weight [] = []
  sorted_by_weight (e ∷ es) = insert_by_weight e (sorted_by_weight es)

  -- at most `max_names` names
  unfoldable pub limit_names : PortfolioManager F → Targets F → Targets F
  unfolding sorted_by_weight take_int
  limit_names m t =
      if ltb_ℤ m.max_names (pos (length t.weights))
      then (if m.respect_ppo_weights
          then record t { violations = t.violations ++ max_names_exceeded ∷ [] }
          else record t { weights = take_int m.max_names (sorted_by_weight t.weights) })
      else t

  unfoldable pub is_above : F → String × F → Bool
  is_above limit (ticker, weight) = py.lt limit weight

  unfoldable pub clip_to : F → String × F → String × F
  unfolding is_above
  clip_to limit (ticker, weight) =
      (ticker, if is_above limit (ticker, weight) then limit else weight)

  unfoldable pub total_of : F → List (String × F) → F
  total_of total [] = total
  total_of total ((ticker, weight) ∷ rest) = total_of (py.add total weight) rest

  -- the literal 1e-12
  unfoldable pub tiny : F
  tiny = py.div (py.of_int (pos 1)) (py.of_int (pos 1000000000000))

  unfoldable pub renormalized : List (String × F) → List (String × F)
  unfolding total_of tiny zero_weight
  renormalized weights =
      let total = total_of zero_weight weights in
      if py.lt tiny total then map (λ e. (e.0, py.div e.1 total)) weights else weights

  unfoldable pub clipped : PortfolioManager F → Targets F → List (String × F) → Targets F
  clipped m t [] = t
  clipped m t (e ∷ es) =
      if m.respect_ppo_weights
      then record t {
        violations = t.violations ++ map (λ d. max_single_name_exceeded d.0 d.1) (e ∷ es);
      }
      else record t { weights = renormalized (map (clip_to m.max_single_name) t.weights) }

  -- no weight above `max_single_name`; what was clipped is scaled to a sum of 1 again
  unfoldable pub limit_single : PortfolioManager F → Targets F → Targets F
  unfolding clipped is_above renormalized clip_to
  limit_single m t = clipped m t (keep (is_above m.max_single_name) t.weights)
