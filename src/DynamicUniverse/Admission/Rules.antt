-- ===== src/DynamicUniverse/Admission/Rules.antt =====
-- `_match_admission_rules`: which of the rules of admission an event fits.
use flephant.Base.{String, Bool, ◌&&◌, ◌||◌, Option, none, some, List, [], ◌∷◌, if◌then◌else◌}
use flephant.Base.Int.{pos}
use flephant.Base.Result.{Result, ok, err, ◌>>=◌}
use flephant.Python.Value.{
  Value, Fields, Runtime, Raised, attribute_error, str, dict, end, get, get_or,
}
use flephant.DynamicUniverse.Admission.Extract.{is_text, event_return_pct}

with_match : Option String → List String → List String
with_match none ids = ids
with_match (some id) ids = id ∷ ids

module _ {F : Type 0} ⦃py : Runtime F⦄ where
  -- the literal 0.05
  five_percent : F
  five_percent = py.div (py.of_int (pos 5)) (py.of_int (pos 100))

  is_spike : F → Bool
  unfolding five_percent
  is_spike ret = py.le five_percent ret || py.le ret (py.neg five_percent)

  -- `event.get("priority", payload.get("priority", ""))`
  priority_of : Fields F → Value F → Result Raised (Value F)
  priority_of event (dict payload) =
      ok (get_or "priority" (get_or "priority" (str "") payload) event)
  priority_of event _ = err attribute_error

  -- whether the rule of that name fits the event
  rule_fits : Value F → Fields F → Result Raised (Option String)
  unfolding is_spike priority_of
  rule_fits rule_id event =
      let event_type = get_or "event_type" (str "") event in
      let payload = get_or "payload" (dict end) event in
      if is_text "price_spike_admission" rule_id
      then (event_return_pct payload >>= λ ret. ok (
          if (is_text "price_snapshot" event_type || is_text "price" event_type) && is_spike ret
          then some "price_spike_admission"
          else none))
      else if is_text "dart_hot_ticker_admission" rule_id
      then (priority_of event payload >>= λ priority. ok (
          if is_text "dart" event_type && (is_text "critical" priority || is_text "urgent" priority)
          then some "dart_hot_ticker_admission"
          else none))
      else ok none

  match_rule : Fields F → Fields F → Result Raised (Option String)
  unfolding rule_fits
  match_rule event rule =
      if is_text "admit_candidate" (get "action" rule)
      then rule_fits (get_or "id" (str "") rule) event
      else ok none

  -- `_match_admission_rules`
  unfoldable pub match_admission_rules : List (Fields F) → Fields F → Result Raised (List String)
  unfolding match_rule with_match
  match_admission_rules [] event = ok []
  match_admission_rules (rule ∷ rules) event = match_rule event rule >>= λ found.
      (match_admission_rules rules event >>= λ ids. ok (with_match found ids))
