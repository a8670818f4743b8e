-- ===== src/Blackboard/Examples.antt =====
-- A pool of two messages, one of them expired, and calls on it.
use flephant.Base.{
  arith, inl, ◌+◌, String, true, false, ◌≡◌, refl, ◌≢◌, none, some, List, [], ◌∷◌, str_eq,
  if◌then◌else◌, length, contains, keep,
}
use flephant.Base.Int.{ℤ, pos, ◌≤ℤ◌}
use flephant.Base.Result.{ok, err}
use flephant.Python.Value.{Fields, str, field, end, float, or_else}
use flephant.Python.Whole.{whole}
use flephant.Blackboard.MessagePool.Types.{
  Entry, Pool, Calendar, PoolError, pool_overflow, filter_raised, empty_pool, subscriptions,
}
use flephant.Blackboard.MessagePool.Validate.{
  validate, parse_iso_datetime_field, validate_pit_trace_fields,
}
use flephant.Blackboard.MessagePool.Expire.{expire}
use flephant.Blackboard.MessagePool.Publish.{message_id_of, is_full, deliver, publish}
use flephant.Blackboard.MessagePool.Operations.{
  ack, Call, publishes, acks, supersedes, expires, registers, run,
}
use flephant.Blackboard.MessagePool.Invariant.{IsWellFormed}
use flephant.Blackboard.MessagePool.Steps.{run-empty_pool-IsWellFormed}
use flephant.Blackboard.MessagePool.Expiry.{live, expire_exact}
use flephant.Blackboard.MessagePool.Outcomes.{publish_answers, publish_succeeds}
use flephant.Blackboard.MessagePool.Acks.{ack_twice}
use flephant.Utils.SafeCast.{is_in, safe_confidence}

-- Two texts are dates.
abbrev calendar : Calendar
calendar = record {
  parse = λ s.
      if str_eq s "early" then some (pos 10) else if str_eq s "late" then some (pos 90) else none;
  render = λ n. "late";
  latest = pos 1000000000;
}

abbrev message : String → Fields ℤ
message expires_at = field "content" (str "up") (
    field "cause_by" (str "news") (
      field "sent_from" (str "NewsAgent") (
        field "priority" (str "normal") (
          field "confidence" (float (pos 1)) (
            field "reasoning" (str "earnings") (
              field "scope" (str "005930") (
                field "action_type" (str "signal")
                  (field "timestamp" (str "early") (field "expires_at" (str expires_at) end)))))))))

abbrev entry : String → String → Entry ℤ
entry mid expires_at = record {
  message_id = mid;
  channel = "news_signal";
  message = message expires_at;
  ack_count = 0;
  acked_by = [];
  created_at = pos 1;
  superseded_by = none;
}

abbrev pool : Pool ℤ
pool = record {
  default_ttl_sec = pos 300;
  max_pool_size = pos 3;
  messages = ("m1", entry "m1" "early") ∷ ("m2", entry "m2" "late") ∷ [];
  by_channel = ("news_signal", "m1" ∷ "m2" ∷ []) ∷ [];
  subscribers =
      ("news_signal", record { handler = 7; filter_fn = some (λ m. some true) } ∷ []) ∷ [];
  dependencies = [];
}

-- The last publication is refused.
abbrev calls : List (Call ℤ)
calls =
    registers "fda" ("news_signal" ∷ "quant_signal" ∷ []) 1
    ∷ publishes (pos 1) "m1" "news_signal" (message "early")
    ∷ publishes (pos 2) "m2" "quant_signal" (message "late")
    ∷ acks (pos 3) "m1" "FDA"
    ∷ acks (pos 4) "m1" "FDA"
    ∷ supersedes "m1" "m2"
    ∷ expires (pos 20)
    ∷ publishes (pos 21) "m2" "news_signal" (message "late")
    ∷ []

run-empty_pool-IsWellFormed_example :
    IsWellFormed (run calendar (empty_pool (pos 300) (pos 3)) calls)
run-empty_pool-IsWellFormed_example = run-empty_pool-IsWellFormed calendar (pos 300) (pos 3) calls

expire_exact_example :
    ((expire calendar (pos 20) pool).1.messages ≡ live calendar (pos 20) pool.messages)
    × ((expire calendar (pos 20) pool).0 + length (live calendar (pos 20) pool.messages) ≡ 2)
expire_exact_example = expire_exact calendar (pos 20) pool (refl, (refl, tt))

ack_twice_example :
    (ack calendar (pos 95) "m2" "FDA" (ack calendar (pos 20) "m2" "FDA" pool).1).1
    ≡ (ack calendar (pos 20) "m2" "FDA" pool).1
ack_twice_example = ack_twice calendar "m2" "FDA" (pos 20) (pos 95) pool (omega arith)

publish_answers_example :
    let r = publish calendar (pos 20) "m3" "news_signal" (message "late") pool in
    ((mid : String)
      → r.0 ≡ ok mid
      → ((contains mid r.1.messages ≡ true) × (pos (length r.1.messages) ≤ℤ r.1.max_pool_size))
        × (contains mid pool.messages ≡ false))
    × ((error : PoolError)
        → r.0 ≡ err error
        → error ≢ pool_overflow
        → error ≢ filter_raised
        → (r.1 ≡ pool) × (r.2 ≡ []))
publish_answers_example = publish_answers calendar (pos 20) "m3" "news_signal" (message "late") pool

message_is_valid : validate calendar "news_signal" (message "late") ≡ ok (message "late")
unfolding validate is_in keep parse_iso_datetime_field validate_pit_trace_fields safe_confidence
message_is_valid = refl

message_gets_id : message_id_of (message "late") "m3" ≡ ok "m3"
unfolding message_id_of or_else
message_gets_id = refl

pool_has_room : is_full pool ≡ false
unfolding is_full
pool_has_room = refl

no_filter_raises : (f : Fields ℤ) → (deliver (subscriptions pool "news_signal") f).0 ≡ true
unfolding deliver
no_filter_raises f = refl

publish_succeeds_example :
    ((publish calendar (pos 20) "m3" "news_signal" (message "late") pool).0 ≡ ok "m3")
    × (contains "m3" (publish calendar (pos 20) "m3" "news_signal" (message "late") pool).1.messages
        ≡ true)
publish_succeeds_example =
    publish_succeeds calendar (pos 20) "m3" "news_signal" "m3" (message "late") (message "late")
      pool message_is_valid message_gets_id refl pool_has_room no_filter_raises (inl refl)
