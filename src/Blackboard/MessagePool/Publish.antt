-- ===== src/Blackboard/MessagePool/Publish.antt =====
-- `publish`. A refused message leaves the pool as it is, but for what an overflow expires; an error
-- of a filter comes after the message is stored.
use flephant.Base.{
  String, Bool, true, false, Option, none, some, List, [], ◌∷◌, ◌++◌, if◌then◌else◌, length,
  contains, insert,
}
use flephant.Base.Int.{ℤ, pos, ◌+ℤ◌, ◌*ℤ◌, ltb_ℤ, leb_ℤ}
use flephant.Base.Result.{Result, ok, err}
use flephant.Python.Value.{Fields, Runtime, str, int, list, dict, get, get_or, has, put, or_else}
use flephant.Utils.SafeCast.{safe_int}
use flephant.Blackboard.MessagePool.Types.{
  Entry, Subscription, Pool, Calendar, Event, delivered, PoolError, unhashable, filter_raised,
  message_id_conflict, message_id_not_text, pool_overflow, date_overflow, ids, subscriptions,
}
use flephant.Blackboard.MessagePool.Validate.{validate}
use flephant.Blackboard.MessagePool.Expire.{expire}
use flephant.Blackboard.MessagePool.Dependency.{check_dependencies}

-- What a call of `publish` comes to: the identifier or the error, the pool, and the events.
abbrev pub Published : Type 0 → Type 0
Published F = Result PoolError String × Pool F × List (Event F)

module _ {F : Type 0} where
  takes : Subscription F → Fields F → Option Bool
  takes s message = elim s.filter_fn [ none ↦ some true | some filter_fn ↦ filter_fn message ]

  -- The loop over the subscribers; a filter that raises ends it.
  unfoldable pub deliver : List (Subscription F) → Fields F → Bool × List (Event F)
  unfolding takes
  deliver [] message = (true, [])
  deliver (s ∷ rest) message =
      let (all_right, later) = deliver rest message in
      elim (takes s message) [
        | none ↦ (false, [])
        | some true ↦ (all_right, delivered s.handler message ∷ later)
        | some false ↦ (all_right, later)
      ]

  -- `len(self._messages) >= self._max_pool_size`
  unfoldable pub is_full : Pool F → Bool
  is_full p = leb_ℤ p.max_pool_size (pos (length p.messages))

  unfoldable pub make_room : Calendar → ℤ → Pool F → Pool F
  make_room cal now p = if is_full p then (expire cal now p).1 else p

  unfoldable pub new_entry : ℤ → String → String → Fields F → Entry F
  new_entry now mid channel message = record {
    message_id = mid;
    channel = channel;
    message = message;
    ack_count = 0;
    acked_by = [];
    created_at = now;
    superseded_by = none;
  }

  unfoldable pub store : ℤ → String → String → Fields F → Pool F → Pool F
  store now mid channel message p = record p {
    messages = insert mid (new_entry now mid channel message) p.messages;
    by_channel = insert channel (ids p channel ++ mid ∷ []) p.by_channel;
  }

module _ {F : Type 0} ⦃py : Runtime F⦄ where
  -- `message.get("message_id") or generate_message_id()`; identifiers are texts
  unfoldable pub message_id_of : Fields F → String → Result PoolError String
  message_id_of message fresh = elim (or_else (get "message_id" message) (str fresh)) [
    | str mid ↦ ok mid
    | list vs ↦ err (unhashable "message_id")
    | dict d ↦ err (unhashable "message_id")
    | _ ↦ err message_id_not_text
  ]

  -- `now + timedelta(seconds=ttl)`
  unfoldable pub expiry_of : ℤ → Pool F → Fields F → ℤ
  expiry_of now p message =
      let ttl =
        safe_int (get_or "ttl" (int p.default_ttl_sec) message) p.default_ttl_sec (some (pos 1))
          none in
      now +ℤ (ttl *ℤ pos 1000000)

  -- Part 3 of `publish`. `timestamp` is a required field, so it is never filled in.
  unfoldable pub with_expiry : Calendar → ℤ → Pool F → Fields F → Result PoolError (Fields F)
  unfolding expiry_of
  with_expiry cal now p message =
      if has "expires_at" message
      then ok message
      else if ltb_ℤ cal.latest (expiry_of now p message)
      then err date_overflow
      else ok (put "expires_at" (str (cal.render (expiry_of now p message))) message)

  -- Parts 5 and 6: the subscribers, then the dependencies.
  unfoldable pub announce : String → String → Fields F → Pool F → Published F
  announce mid channel message p =
      let (all_right, events) = deliver (subscriptions p channel) message in
      let (dependencies, later) = check_dependencies p channel p.dependencies in
      if all_right
      then (ok mid, record p { dependencies = dependencies }, events ++ later)
      else (err filter_raised, p, events)

  -- Part 4 on: room for the message, and its storage.
  unfoldable pub admit : ℤ → String → String → Fields F → Pool F → Published F
  admit now mid channel message p =
      if is_full p
      then (err pool_overflow, p, [])
      else announce mid channel message (store now mid channel message p)

  -- Part 3 on, where the pool is left alone if the date is out of range.
  unfoldable pub admit_dated :
      Calendar → ℤ → String → String → Pool F → Result PoolError (Fields F) → Published F
  admit_dated cal now mid channel p (err error) = (err error, p, [])
  admit_dated cal now mid channel p (ok message) =
      admit now mid channel message (make_room cal now p)

  -- Part 2 on: the identifier, which must be new.
  unfoldable pub publish_valid :
      Calendar → ℤ → String → Fields F → Pool F → Result PoolError String → Published F
  unfolding with_expiry
  publish_valid cal now channel message p (err error) = (err error, p, [])
  publish_valid cal now channel message p (ok mid) =
      if contains mid p.messages
      then (err (message_id_conflict mid), p, [])
      else admit_dated cal now mid channel p
          (with_expiry cal now p (put "message_id" (str mid) message))

  unfoldable pub publish_checked :
      Calendar → ℤ → String → String → Pool F → Result PoolError (Fields F) → Published F
  unfolding message_id_of
  publish_checked cal now fresh channel p (err error) = (err error, p, [])
  publish_checked cal now fresh channel p (ok message) =
      publish_valid cal now channel message p (message_id_of message fresh)

  -- `publish`, at the instant `now`; `fresh` is the identifier that would be generated
  unfoldable pub publish : Calendar → ℤ → String → String → Fields F → Pool F → Published F
  unfolding publish_checked
  publish cal now fresh channel message p =
      publish_checked cal now fresh channel p (validate cal channel message)
