-- ===== src/Blackboard/MessagePool/Index.antt =====
-- The index of a pool says of every channel which messages it has, in the order of publication.
use flephant.Base.{
  String, false, ◌≡◌, refl, some, List, [], ◌∷◌, ◌++◌, arith, str_eq, eq_iff, if◌then◌else◌, keep,
  Dict, lookup, contains, insert, erase, IsKeyed,
}
use flephant.Blackboard.MessagePool.Types.{Entry, Pool, ids}
use flephant.Blackboard.MessagePool.Expire.{without}

module _ {F : Type 0} where
  -- The identifiers of a channel's messages, the oldest first, read from the entries.
  abbrev pub ids_in : String → Dict (Entry F) → List String
  ids_in c [] = []
  ids_in c ((k, e) ∷ d) = let rest = ids_in c d in if str_eq e.channel c then k ∷ rest else rest

  abbrev pub IsIndexed : Pool F → Type 0
  IsIndexed p = (c : String) → ids p c ≡ ids_in c p.messages

  pub ids_in-insert_new :
      (c k : String) (e : Entry F) (d : Dict (Entry F))
      → contains k d ≡ false
      → ids_in c (insert k e d) ≡ ids_in c d ++ (if str_eq e.channel c then k ∷ [] else [])
  ids_in-insert_new c k e [] h = ground arith
  ids_in-insert_new c k e ((j, w) ∷ d) h = ground (arith, ids_in-insert_new c k e d)

  pub ids_in-insert_same :
      (c k : String) (e w : Entry F) (d : Dict (Entry F))
      → lookup k d ≡ some w
      → e.channel ≡ w.channel
      → ids_in c (insert k e d) ≡ ids_in c d
  ids_in-insert_same c k e w [] h s = cc
  ids_in-insert_same c k e w ((j, v) ∷ d) h s = ground (arith, ids_in-insert_same c k e w d)

  without_absent :
      (c k : String) (d : Dict (Entry F))
      → contains k d ≡ false
      → without k (ids_in c d) ≡ ids_in c d
  unfolding keep
  without_absent c k [] h = refl
  without_absent c k ((j, w) ∷ d) h = ground (arith, without_absent c k d)

  pub without_elsewhere :
      (c k : String) (e : Entry F) (d : Dict (Entry F))
      → IsKeyed d
      → lookup k d ≡ some e
      → str_eq e.channel c ≡ false
      → without k (ids_in c d) ≡ ids_in c d
  unfolding keep
  without_elsewhere c k e [] keyed h s = cc
  without_elsewhere c k e ((j, w) ∷ d) keyed h s =
      ground (arith, eq_iff j k, without_absent c j d, without_elsewhere c k e d keyed.1)

  pub ids_in-erase :
      (c k : String) (d : Dict (Entry F))
      → IsKeyed d
      → ids_in c (erase k d) ≡ without k (ids_in c d)
  unfolding keep
  ids_in-erase c k [] keyed = refl
  ids_in-erase c k ((j, w) ∷ d) keyed =
      ground (arith, eq_iff j k, without_absent c j d keyed.0, ids_in-erase c k d keyed.1)
