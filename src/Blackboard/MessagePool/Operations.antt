-- ===== src/Blackboard/MessagePool/Operations.antt =====
-- The other operations of the pool, and the calls that callers can make.
use flephant.Base.{
  ℕ, suc, String, not, Option, none, some, List, [], ◌∷◌, ◌++◌, ◌==◌, ◌-◌, if◌then◌else◌, keep,
  length, lookup, insert, Dict,
}
use flephant.Base.Int.{ℤ, ltb_ℤ}
use flephant.Base.Result.{Result, ok, err}
use flephant.Python.Value.{Value, Fields, Runtime, str, get, put, nonempty}
use flephant.Utils.SafeCast.{is_in}
use flephant.Blackboard.MessagePool.Types.{
  Entry, Subscription, Dependency, Pool, Calendar, PoolError, invalid_scope, invalid_datetime,
  ack_target_not_found, message_expired, supersede_conflict, subscriptions,
}
use flephant.Blackboard.MessagePool.Validate.{valid_channels}
use flephant.Blackboard.MessagePool.Expire.{expire}
use flephant.Blackboard.MessagePool.Publish.{publish}

module _ {F : Type 0} where
  -- `subscribe`
  unfoldable pub subscribe : String → Subscription F → Pool F → Result PoolError (Unit {0}) × Pool F
  subscribe channel s p =
      if is_in channel valid_channels
      then (
        ok tt,
        record p { subscribers = insert channel (subscriptions p channel ++ s ∷ []) p.subscribers },
      )
      else (err (invalid_scope channel), p)

  -- `remove_subscriber`: the number removed
  unfoldable pub remove_subscriber : String → ℕ → Pool F → Result PoolError ℕ × Pool F
  remove_subscriber channel handler p =
      let kept = keep (λ s. not (s.handler == handler)) (subscriptions p channel) in
      if is_in channel valid_channels
      then (
        ok (length (subscriptions p channel) - length kept),
        record p { subscribers = insert channel kept p.subscribers },
      )
      else (err (invalid_scope channel), p)

  -- The check of `expires_at` in `ack`: a text that is no ISO text raises, another type does not.
  unfoldable pub expiry_check : Calendar → ℤ → String → Value F → Option PoolError
  expiry_check cal now mid (str s) =
      if nonempty s
      then elim (cal.parse s) [
        | none ↦ some (invalid_datetime "expires_at")
        | some instant ↦ if ltb_ℤ instant now then some (message_expired mid) else none
      ]
      else none
  expiry_check cal now mid _ = none

  unfoldable pub ack_entry : String → Entry F → Entry F
  ack_entry ack_by entry =
      if is_in ack_by entry.acked_by
      then entry
      else record entry { acked_by = ack_by ∷ entry.acked_by; ack_count = suc entry.ack_count }

  -- the entry under an identifier, changed where it stands
  unfoldable pub update : String → (Entry F → Entry F) → Dict (Entry F) → Dict (Entry F)
  update mid change messages = elim (lookup mid messages) [
    | none ↦ messages
    | some entry ↦ insert mid (change entry) messages
  ]

  -- `ack`, at the instant `now`
  unfoldable pub ack :
      Calendar → ℤ → String → String → Pool F → Result PoolError (Unit {0}) × Pool F
  unfolding expiry_check
  ack cal now mid ack_by p = elim (lookup mid p.messages) [
    | none ↦ (err (ack_target_not_found mid), p)
    | some entry ↦ elim (expiry_check cal now mid (get "expires_at" entry.message)) [
      | some error ↦ (err error, p)
      | none ↦ (ok tt, record p { messages = update mid (ack_entry ack_by) p.messages })
    ]
  ]

  unfoldable pub superseded : String → Entry F → Entry F
  superseded new_id entry = record entry { superseded_by = some new_id }

  unfoldable pub superseding : String → Entry F → Entry F
  superseding old_id entry = record entry { message = put "supersedes" (str old_id) entry.message }

  -- `supersede`; both may be one entry
  unfoldable pub supersede : String → String → Pool F → Result PoolError (Unit {0}) × Pool F
  supersede old_id new_id p = elim (lookup old_id p.messages) [
    | none ↦ (err (supersede_conflict old_id), p)
    | some old ↦ elim (lookup new_id p.messages) [
      | none ↦ (err (supersede_conflict new_id), p)
      | some new ↦ (
        ok tt,
        record p {
          messages =
              update new_id (superseding old_id) (update old_id (superseded new_id) p.messages);
        },
      )
    ]
  ]

  -- `register_dependency`
  unfoldable pub register_dependency : String → List String → ℕ → Pool F → Pool F
  register_dependency key required callback p =
      let dep : Dependency = record { required = required; callback = callback; contexts = [] } in
      record p { dependencies = insert key dep p.dependencies }

-- The calls that change a pool, each with the instant at which it is made.
pub data Call (F : Type 0) : Type 0 where
  publishes : ℤ → String → String → Fields F → Call F
  subscribes : String → Subscription F → Call F
  unsubscribes : String → ℕ → Call F
  acks : ℤ → String → String → Call F
  supersedes : String → String → Call F
  expires : ℤ → Call F
  registers : String → List String → ℕ → Call F

module _ {F : Type 0} ⦃py : Runtime F⦄ (cal : Calendar) where
  unfoldable pub step : Pool F → Call F → Pool F
  step p (publishes now fresh channel message) = (publish cal now fresh channel message p).1
  step p (subscribes channel s) = (subscribe channel s p).1
  step p (unsubscribes channel handler) = (remove_subscriber channel handler p).1
  step p (acks now mid ack_by) = (ack cal now mid ack_by p).1
  step p (supersedes old_id new_id) = (supersede old_id new_id p).1
  step p (expires now) = (expire cal now p).1
  step p (registers key required callback) = register_dependency key required callback p

  unfoldable pub run : Pool F → List (Call F) → Pool F
  run p [] = p
  run p (c ∷ cs) = run (step p c) cs
