-- ===== src/Blackboard/MessagePool/Invariant.antt =====
-- What holds of a pool at all times: no identifier twice, an index that agrees with the entries, and
-- acknowledgements counted once each.
use flephant.Base.{
  String, false, ◌≡◌, some, List, [], ◌∷◌, arith, eq_iff, length, lookup, contains, insert, erase,
  IsKeyed, AllValues, lookup-insert, lookup-erase_ne, lookup-erase_self, erase-IsKeyed,
  erase-AllValues, option_cases,
}
use flephant.Base.Int.{ℤ}
use flephant.Utils.SafeCast.{is_in}
use flephant.Blackboard.MessagePool.Types.{Entry, Pool, Calendar, ids}
use flephant.Blackboard.MessagePool.Expire.{
  without, remove_one, remove_all, pruned, expired_ids, expire,
}
use flephant.Blackboard.MessagePool.Index.{ids_in, IsIndexed, without_elsewhere, ids_in-erase}

-- No text twice.
abbrev pub IsDistinct : List String → Type 0
IsDistinct [] = Unit
IsDistinct (x ∷ xs) = (is_in x xs ≡ false) × IsDistinct xs

module _ {F : Type 0} where
  -- The count of an entry is the number of those who acknowledged it, each once.
  abbrev pub IsCounted : Entry F → Type 0
  IsCounted e = (e.ack_count ≡ length e.acked_by) × IsDistinct e.acked_by

  pub record IsWellFormed (p : Pool F) : Type 0 where
    pub keyed : IsKeyed p.messages
    pub indexed : IsIndexed p
    pub counted : AllValues IsCounted p.messages

  remove_one-IsIndexed :
      (mid : String) (p : Pool F) (e : Entry F) (c : String)
      → IsWellFormed p
      → lookup mid p.messages ≡ some e
      → ids
          (record p {
            messages = erase mid p.messages;
            by_channel = insert e.channel (without mid (ids p e.channel)) p.by_channel;
          })
          c
        ≡ ids_in c (erase mid p.messages)
  remove_one-IsIndexed mid p e c h found = ground (
    arith,
    lookup-insert e.channel c (without mid (ids p e.channel)) p.by_channel,
    eq_iff e.channel c,
    ids_in-erase c mid p.messages h.keyed,
    without_elsewhere c mid e p.messages h.keyed found,
    h.indexed c,
    h.indexed e.channel,
  )

  remove_one-IsWellFormed :
      (mid : String) (p : Pool F) → IsWellFormed p → IsWellFormed (remove_one mid p)
  unfolding remove_one
  remove_one-IsWellFormed mid p h =
      option_cases IsWellFormed (lookup mid p.messages) (λ e. h)
        λ e found. record {
          keyed = erase-IsKeyed mid p.messages h.keyed;
          indexed = λ c. remove_one-IsIndexed mid p e c h found;
          counted = erase-AllValues IsCounted mid p.messages h.counted;
        }

  remove_all-IsWellFormed :
      (mids : List String) (p : Pool F) → IsWellFormed p → IsWellFormed (remove_all mids p)
  unfolding remove_all
  remove_all-IsWellFormed [] p h = h
  remove_all-IsWellFormed (mid ∷ mids) p h =
      remove_all-IsWellFormed mids (remove_one mid p) (remove_one-IsWellFormed mid p h)

  pruned-IsWellFormed :
      (mids : List String) (p : Pool F) → IsWellFormed p → IsWellFormed (pruned mids p)
  unfolding pruned
  pruned-IsWellFormed [] p h = h
  pruned-IsWellFormed (mid ∷ mids) p h = record {
    keyed = h.keyed;
    indexed = h.indexed;
    counted = h.counted;
  }

  pub expire-IsWellFormed :
      (cal : Calendar) (now : ℤ) (p : Pool F) → IsWellFormed p → IsWellFormed (expire cal now p).1
  unfolding expire
  expire-IsWellFormed cal now p h =
      let mids = expired_ids cal now p.messages in
      pruned-IsWellFormed mids (remove_all mids p) (remove_all-IsWellFormed mids p h)

  -- Nothing that is not there comes in by a removal.
  absent-remove_one :
      (k mid : String) (p : Pool F)
      → IsWellFormed p
      → contains k p.messages ≡ false
      → contains k (remove_one mid p).messages ≡ false
  unfolding remove_one
  absent-remove_one k mid p h absent =
      option_cases (λ (q : Pool F). contains k q.messages ≡ false) (lookup mid p.messages)
        (λ e. absent)
        λ e found. ground (
          arith,
          eq_iff mid k,
          lookup-erase_ne mid k p.messages,
          lookup-erase_self mid p.messages h.keyed,
        )

  absent-remove_all :
      (k : String) (mids : List String) (p : Pool F)
      → IsWellFormed p
      → contains k p.messages ≡ false
      → contains k (remove_all mids p).messages ≡ false
  unfolding remove_all
  absent-remove_all k [] p h absent = absent
  absent-remove_all k (mid ∷ mids) p h absent =
      absent-remove_all k mids (remove_one mid p) (remove_one-IsWellFormed mid p h)
        (absent-remove_one k mid p h absent)

  absent-pruned :
      (k : String) (mids : List String) (p : Pool F)
      → contains k p.messages ≡ false
      → contains k (pruned mids p).messages ≡ false
  unfolding pruned
  absent-pruned k [] p absent = absent
  absent-pruned k (mid ∷ mids) p absent = absent

  pub absent-expire :
      (cal : Calendar) (now : ℤ) (k : String) (p : Pool F)
      → IsWellFormed p
      → contains k p.messages ≡ false
      → contains k (expire cal now p).1.messages ≡ false
  unfolding expire
  absent-expire cal now k p h absent =
      absent-pruned k (expired_ids cal now p.messages)
        (remove_all (expired_ids cal now p.messages) p)
        (absent-remove_all k (expired_ids cal now p.messages) p h absent)
