-- ===== src/Blackboard/MessagePool/Steps.antt =====
-- Every call keeps a pool well formed.
use flephant.Base.{
  ℕ, String, false, ◌≡◌, refl, sym, ◌∙◌, List, [], ◌∷◌, ◌++◌, arith, eq_iff, lookup, contains,
  append_nil, lookup-insert, insert-IsKeyed, insert-AllValues, lookup-AllValues, if_cases,
  option_cases,
}
use flephant.Base.Int.{ℤ}
use flephant.Base.Result.{Result, ok, err}
use flephant.Python.Value.{Fields, Runtime, str, put, get}
use flephant.Utils.SafeCast.{is_in}
use flephant.Blackboard.MessagePool.Types.{
  Entry, Pool, Calendar, PoolError, ids, subscriptions, empty_pool,
}
use flephant.Blackboard.MessagePool.Expire.{expire}
use flephant.Blackboard.MessagePool.Validate.{valid_channels, validate}
use flephant.Blackboard.MessagePool.Publish.{
  deliver, with_expiry, new_entry, store, is_full, make_room, announce, admit, admit_dated,
  publish_valid, publish_checked, publish, Published,
}
use flephant.Blackboard.MessagePool.Operations.{
  subscribe, remove_subscriber, ack_entry, ack, superseded, superseding, update, supersede,
  expiry_check, register_dependency, Call, publishes, subscribes, unsubscribes, acks, supersedes,
  expires, registers, step, run,
}
use flephant.Blackboard.MessagePool.Index.{ids_in, ids_in-insert_new, ids_in-insert_same}
use flephant.Blackboard.MessagePool.Invariant.{
  IsCounted, IsWellFormed, expire-IsWellFormed, absent-expire,
}

module _ {F : Type 0} where
  -- A change of one entry that keeps its channel and its count right.
  update-IsWellFormed :
      (mid : String) (change : Entry F → Entry F) (p : Pool F)
      → ((e : Entry F) → (change e).channel ≡ e.channel)
      → ((e : Entry F) → IsCounted e → IsCounted (change e))
      → IsWellFormed p
      → IsWellFormed (record p { messages = update mid change p.messages })
  unfolding update
  update-IsWellFormed mid change p same right h =
      option_cases (λ d. IsWellFormed (record p { messages = d })) (lookup mid p.messages)
        (λ e. record { keyed = h.keyed; indexed = h.indexed; counted = h.counted })
        λ e found. record {
          keyed = insert-IsKeyed mid (change e) p.messages h.keyed;
          indexed = λ c.
              h.indexed c ∙ sym (ids_in-insert_same c mid (change e) e p.messages found (same e));
          counted =
              insert-AllValues IsCounted mid (change e) p.messages
                (right e (lookup-AllValues IsCounted mid p.messages h.counted found)) h.counted;
        }

  ack_entry-IsCounted :
      (ack_by : String) (e : Entry F) → IsCounted e → IsCounted (ack_entry ack_by e)
  unfolding ack_entry
  ack_entry-IsCounted ack_by e h =
      if_cases IsCounted (is_in ack_by e.acked_by) (λ acked. h)
        (λ fresh. (ground (arith, h.0), (fresh, h.1)))

  ack_entry-channel : (ack_by : String) (e : Entry F) → (ack_entry ack_by e).channel ≡ e.channel
  unfolding ack_entry
  ack_entry-channel ack_by e = ground arith

  -- An acknowledgement is a change of the entry, or nothing.
  pub ack_cases {ℓ} :
      (P : Pool F → Type ℓ) (cal : Calendar) (now : ℤ) (mid ack_by : String) (p : Pool F)
      → P p
      → P (record p { messages = update mid (ack_entry ack_by) p.messages })
      → P (ack cal now mid ack_by p).1
  unfolding ack
  ack_cases P cal now mid ack_by p stays changes =
      option_cases Q (lookup mid p.messages) (λ e. stays)
        λ entry found.
          option_cases Q (expiry_check cal now mid (get "expires_at" entry.message)) (λ e. changes)
            (λ error e. stays)
    where
      Q : Result PoolError (Unit {0}) × Pool F → Type ℓ
      Q r = P r.1

  supersede-IsWellFormed :
      (old_id new_id : String) (p : Pool F)
      → IsWellFormed p
      → IsWellFormed (supersede old_id new_id p).1
  unfolding supersede superseded superseding
  supersede-IsWellFormed old_id new_id p h =
      option_cases Q (lookup old_id p.messages) (λ e. h)
        λ old found.
          option_cases Q (lookup new_id p.messages) (λ e. h)
            λ new here.
              update-IsWellFormed new_id (superseding old_id) _ (λ e. refl) (λ e c. c)
                (update-IsWellFormed old_id (superseded new_id) p (λ e. refl) (λ e c. c) h)
    where
      Q : Result PoolError (Unit {0}) × Pool F → Type 0
      Q r = IsWellFormed r.1

  store-IsWellFormed :
      (now : ℤ) (mid channel : String) (message : Fields F) (p : Pool F)
      → IsWellFormed p
      → contains mid p.messages ≡ false
      → IsWellFormed (store now mid channel message p)
  unfolding store new_entry
  store-IsWellFormed now mid channel message p h absent = record {
    keyed = insert-IsKeyed mid (new_entry now mid channel message) p.messages h.keyed;
    indexed = λ c. ground (
      arith,
      lookup-insert channel c (ids p channel ++ mid ∷ []) p.by_channel,
      eq_iff channel c,
      h.indexed c,
      h.indexed channel,
      ids_in-insert_new c mid (new_entry now mid channel message) p.messages absent,
      append_nil (ids_in c p.messages),
    );
    counted =
        insert-AllValues IsCounted mid (new_entry now mid channel message) p.messages (refl, tt)
          h.counted;
  }

module _ {F : Type 0} ⦃py : Runtime F⦄ where
  announce-IsWellFormed :
      (mid channel : String) (message : Fields F) (p : Pool F)
      → IsWellFormed p
      → IsWellFormed (announce mid channel message p).1
  unfolding announce
  announce-IsWellFormed mid channel message p h =
      if_cases (λ (r : Published F). IsWellFormed r.1) (deliver (subscriptions p channel) message).0
        (λ e. record { keyed = h.keyed; indexed = h.indexed; counted = h.counted }) (λ e. h)

  admit-IsWellFormed :
      (now : ℤ) (mid channel : String) (message : Fields F) (p : Pool F)
      → IsWellFormed p
      → contains mid p.messages ≡ false
      → IsWellFormed (admit now mid channel message p).1
  unfolding admit
  admit-IsWellFormed now mid channel message p h absent =
      if_cases (λ (r : Published F). IsWellFormed r.1) (is_full p) (λ e. h)
        λ e.
          announce-IsWellFormed mid channel message (store now mid channel message p)
            (store-IsWellFormed now mid channel message p h absent)

  dated-IsWellFormed :
      (cal : Calendar) (now : ℤ) (mid channel : String) (p : Pool F)
      (r : Result PoolError (Fields F))
      → IsWellFormed p
      → contains mid p.messages ≡ false
      → IsWellFormed (admit_dated cal now mid channel p r).1
  unfolding admit_dated make_room
  dated-IsWellFormed cal now mid channel p (err error) h absent = h
  dated-IsWellFormed cal now mid channel p (ok message) h absent =
      if_cases (λ (q : Pool F). IsWellFormed (admit now mid channel message q).1) (is_full p)
        (λ full.
          admit-IsWellFormed now mid channel message (expire cal now p).1
            (expire-IsWellFormed cal now p h) (absent-expire cal now mid p h absent))
        (λ e. admit-IsWellFormed now mid channel message p h absent)

  publish_valid-IsWellFormed :
      (cal : Calendar) (now : ℤ) (channel : String) (message : Fields F) (p : Pool F)
      (r : Result PoolError String)
      → IsWellFormed p
      → IsWellFormed (publish_valid cal now channel message p r).1
  unfolding publish_valid
  publish_valid-IsWellFormed cal now channel message p (err error) h = h
  publish_valid-IsWellFormed cal now channel message p (ok mid) h =
      if_cases (λ (r : Published F). IsWellFormed r.1) (contains mid p.messages) (λ e. h)
        λ absent.
          dated-IsWellFormed cal now mid channel p
            (with_expiry cal now p (put "message_id" (str mid) message)) h absent

  publish_checked-IsWellFormed :
      (cal : Calendar) (now : ℤ) (fresh channel : String) (p : Pool F)
      (r : Result PoolError (Fields F))
      → IsWellFormed p
      → IsWellFormed (publish_checked cal now fresh channel p r).1
  unfolding publish_checked
  publish_checked-IsWellFormed cal now fresh channel p (err error) h = h
  publish_checked-IsWellFormed cal now fresh channel p (ok message) h =
      publish_valid-IsWellFormed cal now channel message p _ h

  step-IsWellFormed :
      (cal : Calendar) (p : Pool F) (c : Call F) → IsWellFormed p → IsWellFormed (step cal p c)
  unfolding step publish subscribe remove_subscriber register_dependency
  step-IsWellFormed cal p (publishes now fresh channel message) h =
      publish_checked-IsWellFormed cal now fresh channel p (validate cal channel message) h
  step-IsWellFormed cal p (subscribes channel s) h =
      if_cases (λ (r : Result PoolError (Unit {0}) × Pool F). IsWellFormed r.1)
        (is_in channel valid_channels)
        (λ e. record { keyed = h.keyed; indexed = h.indexed; counted = h.counted }) (λ e. h)
  step-IsWellFormed cal p (unsubscribes channel handler) h =
      if_cases (λ (r : Result PoolError ℕ × Pool F). IsWellFormed r.1)
        (is_in channel valid_channels)
        (λ e. record { keyed = h.keyed; indexed = h.indexed; counted = h.counted }) (λ e. h)
  step-IsWellFormed cal p (acks now mid ack_by) h = ack_cases IsWellFormed cal now mid ack_by p h (
      update-IsWellFormed mid (ack_entry ack_by) p (ack_entry-channel ack_by)
        (ack_entry-IsCounted ack_by) h)
  step-IsWellFormed cal p (supersedes old_id new_id) h = supersede-IsWellFormed old_id new_id p h
  step-IsWellFormed cal p (expires now) h = expire-IsWellFormed cal now p h
  step-IsWellFormed cal p (registers key required callback) h = record {
    keyed = h.keyed;
    indexed = h.indexed;
    counted = h.counted;
  }

  run-IsWellFormed :
      (cal : Calendar) (p : Pool F) (cs : List (Call F))
      → IsWellFormed p
      → IsWellFormed (run cal p cs)
  unfolding run
  run-IsWellFormed cal p [] h = h
  run-IsWellFormed cal p (c ∷ cs) h =
      run-IsWellFormed cal (step cal p c) cs (step-IsWellFormed cal p c h)

  -- After any calls on a new pool, refused ones included, no identifier is there twice, the index of
  -- every channel lists that channel's messages in the order of publication and no others, and the
  -- count of every entry is the number of those who acknowledged it, each counted once.
  pub run-empty_pool-IsWellFormed :
      (cal : Calendar) (ttl size : ℤ) (cs : List (Call F))
      → IsWellFormed (run cal (empty_pool ttl size) cs)
  unfolding empty_pool
  run-empty_pool-IsWellFormed cal ttl size cs =
      run-IsWellFormed cal (empty_pool ttl size) cs
        (record { keyed = tt; indexed = λ c. refl; counted = tt })
