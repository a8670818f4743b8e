-- ===== src/Blackboard/MessagePool/Expiry.antt =====
-- `expire` removes what is expired, and nothing else.
use flephant.Base.{
  ◌+◌, String, false, not, ◌≡◌, refl, sym, ◌∙◌, ap, List, [], ◌∷◌, arith, str_eq, eq_iff, length,
  keep, All, Dict, lookup, contains, erase, IsKeyed, none, option_cases,
}
use flephant.Base.Int.{ℤ}
use flephant.Blackboard.MessagePool.Types.{Entry, Pool, Calendar}
use flephant.Blackboard.MessagePool.Expire.{
  remove_one, remove_all, pruned, is_expired, expired_ids, expire,
}

module _ {F : Type 0} where
  erase_all : List String → Dict (Entry F) → Dict (Entry F)
  erase_all [] d = d
  erase_all (mid ∷ mids) d = erase_all mids (erase mid d)

  erase_absent : (k : String) (d : Dict (Entry F)) → lookup k d ≡ none → erase k d ≡ d
  erase_absent k [] h = refl
  erase_absent k ((j, w) ∷ d) h = ground (arith, erase_absent k d)

  messages-remove_one :
      (mid : String) (p : Pool F) → (remove_one mid p).messages ≡ erase mid p.messages
  unfolding remove_one
  messages-remove_one mid p =
      option_cases (λ (q : Pool F). q.messages ≡ erase mid p.messages) (lookup mid p.messages)
        (λ e. sym (erase_absent mid p.messages e)) (λ e found. refl)

  messages-remove_all :
      (mids : List String) (p : Pool F) → (remove_all mids p).messages ≡ erase_all mids p.messages
  unfolding remove_all erase_all
  messages-remove_all [] p = refl
  messages-remove_all (mid ∷ mids) p =
      messages-remove_all mids (remove_one mid p) ∙ ap (erase_all mids) (messages-remove_one mid p)

  messages-pruned : (mids : List String) (p : Pool F) → (pruned mids p).messages ≡ p.messages
  unfolding pruned
  messages-pruned [] p = refl
  messages-pruned (mid ∷ mids) p = refl

  erase_all-cons :
      (mids : List String) (j : String) (w : Entry F) (d : Dict (Entry F))
      → All (λ m. str_eq j m ≡ false) mids
      → erase_all mids ((j, w) ∷ d) ≡ (j, w) ∷ erase_all mids d
  unfolding erase_all
  erase_all-cons [] j w d h = refl
  erase_all-cons (mid ∷ mids) j w d h =
      ap (λ (c : Dict (Entry F)). erase_all mids c) (erased h.0)
      ∙ erase_all-cons mids j w (erase mid d) h.1
    where
      erased : str_eq j mid ≡ false → erase mid ((j, w) ∷ d) ≡ (j, w) ∷ erase mid d
      erased e = rw e refl

module _ {F : Type 0} (cal : Calendar) (now : ℤ) where
  expired_ids-All :
      (j : String) (d : Dict (Entry F))
      → contains j d ≡ false
      → All (λ m. str_eq j m ≡ false) (expired_ids cal now d)
  unfolding expired_ids
  expired_ids-All j [] h = tt
  expired_ids-All j ((k, e) ∷ d) h = ground (arith, expired_ids-All j d, eq_iff j k, eq_iff k j)

  -- The entries that are not expired, where they stand.
  abbrev pub live : Dict (Entry F) → Dict (Entry F)
  live d = keep (λ e. not (is_expired cal now e.1)) d

  erase_all-expired_ids :
      (d : Dict (Entry F)) → IsKeyed d → erase_all (expired_ids cal now d) d ≡ live d
  unfolding erase_all expired_ids keep
  erase_all-expired_ids [] h = refl
  erase_all-expired_ids ((k, e) ∷ d) h = ground (
    arith,
    eq_iff k k,
    erase_all-expired_ids d h.1,
    erase_all-cons (expired_ids cal now d) k e d (expired_ids-All k d h.0),
  )

  length-expired_ids :
      (d : Dict (Entry F)) → length (expired_ids cal now d) + length (live d) ≡ length d
  unfolding expired_ids keep
  length-expired_ids [] = omega arith
  length-expired_ids ((k, e) ∷ d) = ground (arith, length-expired_ids d)

  -- What is left after `expire` are the entries that are not expired, in their order, and the answer
  -- is the number of the others; no identifier may be there twice.
  pub expire_exact :
      (p : Pool F)
      → IsKeyed p.messages
      → ((expire cal now p).1.messages ≡ live p.messages)
        × ((expire cal now p).0 + length (live p.messages) ≡ length p.messages)
  unfolding expire
  expire_exact p h =
      let mids = expired_ids cal now p.messages in
      (
        messages-pruned mids (remove_all mids p)
            ∙ messages-remove_all mids p
            ∙ erase_all-expired_ids p.messages h,
        length-expired_ids p.messages,
      )
