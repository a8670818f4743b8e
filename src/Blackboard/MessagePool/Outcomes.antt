-- ===== src/Blackboard/MessagePool/Outcomes.antt =====
-- What the answers of `publish` and `ack` mean for the pool.
use flephant.Base.{
  String, true, false, ◌≡◌, refl, ◌≢◌, ◌⊎◌, [], arith, length, contains, lookup-insert,
  length-insert, if_cases, eq_refl,
}
use flephant.Base.Int.{ℤ, pos, ◌≤ℤ◌, ltb_ℤ}
use flephant.Base.Result.{Result, ok, err}
use flephant.Python.Value.{Fields, Runtime, str, has, put}
use flephant.Blackboard.MessagePool.Types.{
  Pool, Calendar, PoolError, pool_overflow, filter_raised, subscriptions,
}
use flephant.Blackboard.MessagePool.Validate.{validate}
use flephant.Blackboard.MessagePool.Publish.{
  Published, new_entry, store, is_full, make_room, deliver, announce, admit, admit_dated,
  message_id_of, expiry_of, with_expiry, publish_valid, publish_checked, publish,
}

module _ {F : Type 0} where
  length-store :
      (now : ℤ) (mid channel : String) (message : Fields F) (p : Pool F)
      → is_full p ≡ false
      → pos (length (store now mid channel message p).messages) ≤ℤ p.max_pool_size
  unfolding store is_full
  length-store now mid channel message p room =
      ground (arith, length-insert mid (new_entry now mid channel message) p.messages)

  contains-store :
      (now : ℤ) (mid channel : String) (message : Fields F) (p : Pool F)
      → contains mid (store now mid channel message p).messages ≡ true
  unfolding store
  contains-store now mid channel message p =
      ground
        (arith, lookup-insert mid mid (new_entry now mid channel message) p.messages, eq_refl mid)

  -- What holds of the answer of a call that stored its message.
  abbrev pub IsStored : String → Pool F → Type 0
  IsStored mid p = (contains mid p.messages ≡ true) × (pos (length p.messages) ≤ℤ p.max_pool_size)

module _ {F : Type 0} ⦃py : Runtime F⦄ where
  -- The answer of `publish`: a stored message with a new identifier, or a refusal of an unchanged
  -- pool; an overflow and a raise of a filter are told apart.
  abbrev IsAnswer : Pool F → Published F → Type 0
  IsAnswer p r =
      ((mid : String) → r.0 ≡ ok mid → IsStored mid r.1 × (contains mid p.messages ≡ false))
      × ((error : PoolError)
          → r.0 ≡ err error
          → error ≢ pool_overflow
          → error ≢ filter_raised
          → (r.1 ≡ p) × (r.2 ≡ []))

  refused : (error : PoolError) (p : Pool F) → IsAnswer p (err error, p, [])
  refused error p = (λ mid e. cc, λ error' e o f. (refl, refl))

  overflowed : (p q : Pool F) → IsAnswer p (err pool_overflow, q, [])
  overflowed p q = (λ mid e. cc, λ error e o f. absurd (ground arith))

  announce-IsAnswer :
      (p q : Pool F) (mid channel : String) (message : Fields F)
      → IsStored mid q
      → contains mid p.messages ≡ false
      → IsAnswer p (announce mid channel message q)
  unfolding announce
  announce-IsAnswer p q mid channel message stored absent =
      if_cases (IsAnswer p) (deliver (subscriptions q channel) message).0
        (λ e. (λ mid' a. ground (arith), λ error a o f. cc))
        (λ e. (λ mid' a. cc, λ error a o f. absurd (ground arith)))

  admit-IsAnswer :
      (p q : Pool F) (now : ℤ) (mid channel : String) (message : Fields F)
      → contains mid p.messages ≡ false
      → IsAnswer p (admit now mid channel message q)
  unfolding admit store
  admit-IsAnswer p q now mid channel message absent =
      if_cases (IsAnswer p) (is_full q) (λ e. overflowed p q)
        λ room.
          announce-IsAnswer p (store now mid channel message q) mid channel message
            (contains-store now mid channel message q, length-store now mid channel message q room)
            absent

  dated-IsAnswer :
      (cal : Calendar) (now : ℤ) (mid channel : String) (p : Pool F)
      (r : Result PoolError (Fields F))
      → contains mid p.messages ≡ false
      → IsAnswer p (admit_dated cal now mid channel p r)
  unfolding admit_dated
  dated-IsAnswer cal now mid channel p (err error) absent = refused error p
  dated-IsAnswer cal now mid channel p (ok message) absent =
      admit-IsAnswer p (make_room cal now p) now mid channel message absent

  publish_valid-IsAnswer :
      (cal : Calendar) (now : ℤ) (channel : String) (message : Fields F) (p : Pool F)
      (r : Result PoolError String)
      → IsAnswer p (publish_valid cal now channel message p r)
  unfolding publish_valid
  publish_valid-IsAnswer cal now channel message p (err error) = refused error p
  publish_valid-IsAnswer cal now channel message p (ok mid) =
      if_cases (IsAnswer p) (contains mid p.messages) (λ e. refused _ p)
        λ absent. dated-IsAnswer cal now mid channel p _ absent

  publish_checked-IsAnswer :
      (cal : Calendar) (now : ℤ) (fresh channel : String) (p : Pool F)
      (r : Result PoolError (Fields F))
      → IsAnswer p (publish_checked cal now fresh channel p r)
  unfolding publish_checked
  publish_checked-IsAnswer cal now fresh channel p (err error) = refused error p
  publish_checked-IsAnswer cal now fresh channel p (ok message) =
      publish_valid-IsAnswer cal now channel message p _

  -- If `publish` answers with an identifier, that was not in the pool, it is now, and the pool is
  -- within its size. If it raises anything but an overflow of the pool or the exception of a filter,
  -- the pool is as before and nobody is called.
  pub publish_answers :
      (cal : Calendar) (now : ℤ) (fresh channel : String) (message : Fields F) (p : Pool F)
      → let r = publish cal now fresh channel message p in
        ((mid : String)
          → r.0 ≡ ok mid
          → ((contains mid r.1.messages ≡ true) × (pos (length r.1.messages) ≤ℤ r.1.max_pool_size))
            × (contains mid p.messages ≡ false))
        × ((error : PoolError)
            → r.0 ≡ err error
            → error ≢ pool_overflow
            → error ≢ filter_raised
            → (r.1 ≡ p) × (r.2 ≡ []))
  unfolding publish
  publish_answers cal now fresh channel message p =
      publish_checked-IsAnswer cal now fresh channel p (validate cal channel message)

  admitted :
      (now : ℤ) (mid channel : String) (message : Fields F) (p : Pool F)
      → is_full p ≡ false
      → ((f : Fields F) → (deliver (subscriptions p channel) f).0 ≡ true)
      → ((admit now mid channel message p).0 ≡ ok mid)
        × (contains mid (admit now mid channel message p).1.messages ≡ true)
  unfolding admit announce store
  admitted now mid channel message p room quiet =
      rw (room, quiet message) (refl, contains-store now mid channel message p)

  -- A message with its own expiry, or whose expiry is a date.
  abbrev pub IsDated : Calendar → ℤ → Pool F → Fields F → Type 0
  IsDated cal now p message =
      (has "expires_at" message ≡ true) ⊎ (expiry_of now p message ≤ℤ cal.latest)

  dated :
      (cal : Calendar) (now : ℤ) (p : Pool F) (message : Fields F)
      → IsDated cal now p message
      → (f : Fields F) × (with_expiry cal now p message ≡ ok f)
  unfolding with_expiry
  dated cal now p message h =
      if_cases (λ (r : Result PoolError (Fields F)). (f : Fields F) × (r ≡ ok f))
        (has "expires_at" message) (λ e. (message, refl))
        λ none_given.
          if_cases (λ (r : Result PoolError (Fields F)). (f : Fields F) × (r ≡ ok f))
            (ltb_ℤ cal.latest (expiry_of now p message))
            (λ late. absurd (ground (arith, h, none_given, late))) (λ e. (_, refl))

  -- A valid message with a new identifier is stored, if there is room, no filter raises, and the
  -- message has an expiry or the time to live, counted from now, ends at a date that can be represented.
  pub publish_succeeds :
      (cal : Calendar) (now : ℤ) (fresh channel mid : String) (message valid : Fields F)
      (p : Pool F)
      → validate cal channel message ≡ ok valid
      → message_id_of valid fresh ≡ ok mid
      → contains mid p.messages ≡ false
      → is_full p ≡ false
      → ((f : Fields F) → (deliver (subscriptions p channel) f).0 ≡ true)
      → IsDated cal now p (put "message_id" (str mid) valid)
      → ((publish cal now fresh channel message p).0 ≡ ok mid)
        × (contains mid (publish cal now fresh channel message p).1.messages ≡ true)
  unfolding publish publish_checked publish_valid admit_dated make_room
  publish_succeeds cal now fresh channel mid message valid p v i absent room quiet date =
      let (f, e) = dated cal now p (put "message_id" (str mid) valid) date in
      rw (v, i, absent, e, room) (admitted now mid channel f p room quiet)
