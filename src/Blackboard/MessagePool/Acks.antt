-- ===== src/Blackboard/MessagePool/Acks.antt =====
-- Acknowledging a message.
use flephant.Base.{
  String, ◌≡◌, refl, ◌∙◌, ap, none, some, [], ◌∷◌, arith, Dict, lookup, insert, lookup-insert,
  eq_refl, Option, Option-cases, if_cases, option_cases, inl, inr,
}
use flephant.Base.Int.{ℤ, ◌≤ℤ◌, ltb_ℤ}
use flephant.Python.Value.{Value, str, nonempty, get}
use flephant.Utils.SafeCast.{is_in}
use flephant.Blackboard.MessagePool.Types.{Entry, Pool, Calendar, PoolError}
use flephant.Blackboard.MessagePool.Operations.{ack_entry, update, expiry_check, ack}

module _ {F : Type 0} where
  insert_twice :
      (k : String) (v : Entry F) (d : Dict (Entry F)) → insert k v (insert k v d) ≡ insert k v d
  insert_twice k v [] = ground (arith, eq_refl k)
  insert_twice k v ((j, w) ∷ d) = ground (arith, insert_twice k v d)

  ack_entry_twice :
      (ack_by : String) (e : Entry F) → ack_entry ack_by (ack_entry ack_by e) ≡ ack_entry ack_by e
  unfolding ack_entry is_in
  ack_entry_twice ack_by e = ground (arith, eq_refl ack_by)

  message-ack_entry : (ack_by : String) (e : Entry F) → (ack_entry ack_by e).message ≡ e.message
  unfolding ack_entry
  message-ack_entry ack_by e = ground arith

  module _ (cal : Calendar) (mid ack_by : String) where
    ack_found :
        (now : ℤ) (p : Pool F) (e : Entry F)
        → lookup mid p.messages ≡ some e
        → expiry_check cal now mid (get "expires_at" e.message) ≡ none
        → (ack cal now mid ack_by p).1
          ≡ record p { messages = insert mid (ack_entry ack_by e) p.messages }
    unfolding ack update
    ack_found now p e found valid = ground arith

    ack_refused :
        (now : ℤ) (p : Pool F) (e : Entry F) (error : PoolError)
        → lookup mid p.messages ≡ some e
        → expiry_check cal now mid (get "expires_at" e.message) ≡ some error
        → (ack cal now mid ack_by p).1 ≡ p
    unfolding ack
    ack_refused now p e error found late = ground arith

    ack_missing :
        (now : ℤ) (p : Pool F) → lookup mid p.messages ≡ none → (ack cal now mid ack_by p).1 ≡ p
    unfolding ack
    ack_missing now p none_there = ground arith

    -- The pool after an acknowledgement that was taken.
    abbrev taken : Pool F → Entry F → Pool F
    taken p e = record p { messages = insert mid (ack_entry ack_by e) p.messages }

    lookup-taken :
        (p : Pool F) (e : Entry F) → lookup mid (taken p e).messages ≡ some (ack_entry ack_by e)
    lookup-taken p e =
        lookup-insert mid mid (ack_entry ack_by e) p.messages ∙ ground (arith, eq_refl mid)

    taken_twice : (p : Pool F) (e : Entry F) → taken (taken p e) (ack_entry ack_by e) ≡ taken p e
    taken_twice p e =
        ap (λ (d : Dict (Entry F)). record p { messages = d })
          (ap (λ v. insert mid v (insert mid (ack_entry ack_by e) p.messages))
              (ack_entry_twice ack_by e)
            ∙ insert_twice mid (ack_entry ack_by e) p.messages)

    -- A later acknowledgement of an entry that took one changes nothing, taken or refused.
    again :
        (later : ℤ) (p : Pool F) (e : Entry F)
        → (ack cal later mid ack_by (taken p e)).1 ≡ taken p e
    again later p e =
        elim (Option-cases
          (expiry_check cal later mid (get "expires_at" (ack_entry ack_by e).message))) [
            | inl valid ↦
                ack_found later (taken p e) (ack_entry ack_by e) (lookup-taken p e) valid
                ∙ taken_twice p e
            | inr (error, late) ↦
                ack_refused later (taken p e) (ack_entry ack_by e) error (lookup-taken p e) late
          ]

    -- What is refused is refused later.
    refused_later :
        (now later : ℤ) (v : Value F) (error : PoolError)
        → now ≤ℤ later
        → expiry_check cal now mid v ≡ some error
        → (error' : PoolError) × (expiry_check cal later mid v ≡ some error')
    unfolding expiry_check
    refused_later now later (str s) error order h =
        let Late : Option PoolError → Type 0 = λ r. (x : PoolError) × (r ≡ some x) in
        if_cases Late (nonempty s)
          (λ some_text.
            option_cases Late (cal.parse s) (λ e. (_, refl))
              λ instant e.
                if_cases Late (ltb_ℤ instant later) (λ l. (_, refl))
                  λ l. absurd (ground (arith, h, some_text, e, l, order)))
          (λ empty. absurd (ground (arith, h, empty)))
    refused_later now later _ error order h = cc

    -- Acknowledging a message once more by the same name, at the same time or later, leaves the pool
    -- as the first acknowledgement left it, whether each of them is taken or refused: also where the
    -- message is not there, or expires before the first or between the two.
    pub ack_twice :
        (now later : ℤ) (p : Pool F)
        → now ≤ℤ later
        → (ack cal later mid ack_by (ack cal now mid ack_by p).1).1 ≡ (ack cal now mid ack_by p).1
    ack_twice now later p order = elim (Option-cases (lookup mid p.messages)) [
      | inl none_there ↦ rw (ack_missing now p none_there) (ack_missing later p none_there)
      | inr (e, found) ↦
          elim (Option-cases (expiry_check cal now mid (get "expires_at" e.message))) [
            | inl valid ↦ rw (ack_found now p e found valid) (again later p e)
            | inr (error, late) ↦
                let (error', still) =
                  refused_later now later (get "expires_at" e.message) error order late in
                rw (ack_refused now p e error found late) (ack_refused later p e error' found still)
          ]
    ]
