-- ===== src/Blackboard/MessagePool/Validate.antt =====
-- The checks of `publish`, in the order of the code. A value that cannot be hashed cannot be looked
-- for in a set: `unhashable` stands for that TypeError.
use flephant.Base.{
  String, Bool, true, false, not, ◌&&◌, Option, none, some, List, [], ◌∷◌, if◌then◌else◌, keep,
}
use flephant.Base.Int.{ℤ, pos, ltb_ℤ}
use flephant.Base.Result.{Result, ok, err, ◌>>=◌}
use flephant.Python.Value.{
  Value, Fields, Runtime, null, float, str, list, dict, get, get_or, has, put,
}
use flephant.Utils.SafeCast.{is_in, safe_confidence}
use flephant.Blackboard.MessagePool.Types.{
  Calendar, PoolError, invalid_scope, missing_fields, invalid_field, unhashable, invalid_datetime,
  pit_violation,
}

pub valid_channels : List String
valid_channels =
    "news_signal" ∷ "dart_alert" ∷ "sentiment_update" ∷ "theme_score" ∷ "risk_warning"
    ∷ "regime_change" ∷ "veto_recommendation" ∷ "quant_signal" ∷ "quant_alert" ∷ "anomaly_detected"
    ∷ "investor_flow_alert" ∷ "debate_resolution" ∷ "pairwise_ranking" ∷ "final_decision"
    ∷ "uncertainty_signal" ∷ []

-- sorted, as the error lists them
message_required_fields : List String
message_required_fields =
    "action_type" ∷ "cause_by" ∷ "confidence" ∷ "content" ∷ "priority" ∷ "reasoning" ∷ "scope"
    ∷ "sent_from" ∷ "timestamp" ∷ []

valid_action_types : List String
valid_action_types =
    "signal" ∷ "alert" ∷ "veto_recommendation" ∷ "regime_change" ∷ "resolution" ∷ []

valid_priorities : List String
valid_priorities = "urgent" ∷ "normal" ∷ "low" ∷ []

valid_risk_levels : List String
valid_risk_levels = "low" ∷ "medium" ∷ "high" ∷ []

-- `if not test: raise error`
unfoldable pub require : Bool → PoolError → Result PoolError (Unit {0})
require true error = ok tt
require false error = err error

module _ {F : Type 0} where
  -- `value in words`; `none` where the value cannot be hashed
  among : Value F → List String → Option Bool
  among (str s) words = some (is_in s words)
  among (list vs) words = none
  among (dict d) words = none
  among _ words = some false

  require_word : String → List String → Fields F → Result PoolError (Unit {0})
  unfolding among require
  require_word name words message = elim (among (get name message) words) [
    | none ↦ err (unhashable name)
    | some found ↦ require found (invalid_field name)
  ]

  require_risk_level : Fields F → Result PoolError (Unit {0})
  unfolding require_word valid_risk_levels
  require_risk_level message = elim (get "risk_level" message) [
    | null ↦ ok tt
    | _ ↦ require_word "risk_level" valid_risk_levels message
  ]

  missing : Fields F → List String
  unfolding message_required_fields
  missing message = keep (λ name. not (has name message)) message_required_fields

  require_fields : Fields F → Result PoolError (Unit {0})
  unfolding missing
  require_fields message = elim (missing message) [
    | [] ↦ ok tt
    | name ∷ names ↦ err (missing_fields (name ∷ names))
  ]

  module _ (cal : Calendar) where
    -- the instant that a value stands for, if it is an ISO text
    instant_of : Value F → Option ℤ
    instant_of (str s) = cal.parse s
    instant_of _ = none

    -- `_parse_iso_datetime_field`
    unfoldable pub parse_iso_datetime_field : Fields F → String → Result PoolError ℤ
    unfolding instant_of
    parse_iso_datetime_field message name = elim (instant_of (get name message)) [
      | none ↦ err (invalid_datetime name)
      | some instant ↦ ok instant
    ]

    -- the field is parsed if it is there
    require_datetime_if : Fields F → String → Result PoolError (Unit {0})
    require_datetime_if message name =
        if has name message
        then (parse_iso_datetime_field message name >>= λ instant. ok tt)
        else ok tt

    -- `_validate_pit_trace_fields`
    unfoldable pub validate_pit_trace_fields : Fields F → Result PoolError (Unit {0})
    unfolding require
    validate_pit_trace_fields message =
        if has "occurred_at" message && has "asof" message
        then (do
          occurred_at ← parse_iso_datetime_field message "occurred_at"
          asof ← parse_iso_datetime_field message "asof"
          require (not (ltb_ℤ asof occurred_at)) pit_violation)
        else ok tt

module _ {F : Type 0} ⦃py : Runtime F⦄ where
  half : F
  half = py.div (py.of_int (pos 1)) (py.of_int (pos 2))

  -- `message["confidence"] = safe_confidence(message.get("confidence", 0.5))`
  with_confidence : Fields F → Fields F
  unfolding half
  with_confidence message =
      put "confidence" (float (safe_confidence (get_or "confidence" (float half) message) half))
        message

  -- Part 1 of `publish`: the message with its confidence set, or the error.
  unfoldable pub validate : Calendar → String → Fields F → Result PoolError (Fields F)
  unfolding valid_channels require require_fields with_confidence require_word require_risk_level
      valid_priorities valid_action_types require_datetime_if
  validate cal channel message = do
    u1 ← require (is_in channel valid_channels) (invalid_scope channel)
    u2 ← require_fields message
    let message' = with_confidence message in
        do
          u3 ← require_word "priority" valid_priorities message'
          u4 ← require_word "action_type" valid_action_types message'
          u5 ← require_risk_level message'
          timestamp ← parse_iso_datetime_field cal message' "timestamp"
          u6 ← require_datetime_if cal message' "expires_at"
          u7 ← require_datetime_if cal message' "occurred_at"
          u8 ← require_datetime_if cal message' "asof"
          u9 ← validate_pit_trace_fields cal message'
          ok message'
