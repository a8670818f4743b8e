-- ===== src/Blackboard/MessagePool/Expire.antt =====
-- `expire`, with the pruning of the contexts of dependencies, and the view of the active messages.
use flephant.Base.{
  String, Bool, true, false, not, ◌&&◌, Option, none, some, List, [], ◌∷◌, str_eq, if◌then◌else◌,
  keep, map, length, lookup, insert, erase, Dict, ℕ, any,
}
use flephant.Base.Int.{ℤ, ltb_ℤ}
use flephant.Python.Value.{Value, Fields, str, get, nonempty}
use flephant.Utils.SafeCast.{is_in}
use flephant.Blackboard.MessagePool.Types.{Entry, Context, Dependency, Pool, Calendar, ids}

module _ {F : Type 0} (cal : Calendar) where
  -- the instant of `expires_at`; `none` where it is missing, empty or no ISO text
  expiry_of : Value F → Option ℤ
  expiry_of (str s) = if nonempty s then cal.parse s else none
  expiry_of _ = none

  unfoldable pub expiry : Fields F → Option ℤ
  unfolding expiry_of
  expiry message = expiry_of (get "expires_at" message)

  unfoldable pub is_expired : ℤ → Entry F → Bool
  is_expired now entry = elim (expiry entry.message) [
    | none ↦ false
    | some instant ↦ ltb_ℤ instant now
  ]

  -- `to_remove`
  unfoldable pub expired_ids : ℤ → Dict (Entry F) → List String
  expired_ids now [] = []
  expired_ids now ((mid, entry) ∷ rest) =
      let later = expired_ids now rest in if is_expired now entry then mid ∷ later else later

-- `[x for x in xs if x != mid]`
abbrev pub without : String → List String → List String
without mid xs = keep (λ x. not (str_eq x mid)) xs

module _ {F : Type 0} where
  -- One round of the loop that removes an entry and its place in the index.
  unfoldable pub remove_one : String → Pool F → Pool F
  remove_one mid p = elim (lookup mid p.messages) [
    | none ↦ p
    | some entry ↦ record p {
      messages = erase mid p.messages;
      by_channel = insert entry.channel (without mid (ids p entry.channel)) p.by_channel;
    }
  ]

  unfoldable pub remove_all : List String → Pool F → Pool F
  remove_all [] p = p
  remove_all (mid ∷ mids) p = remove_all mids (remove_one mid p)

-- the channels of a context whose latest message stays
staying : List String → Context → Context
staying removed context = keep (λ e. not (is_in e.1 removed)) context

touched : List String → Context → Bool
touched removed context = any (λ e. is_in e.1 removed) context

-- The contexts after a removal; a context that loses its last channel is dropped.
unfoldable pub prune_contexts : List String → Dict Context → Dict Context
unfolding staying touched
prune_contexts removed [] = []
prune_contexts removed ((key, context) ∷ rest) =
    let later = prune_contexts removed rest in
    if not (touched removed context)
    then (key, context) ∷ later
    else elim (staying removed context) [ [] ↦ later | e ∷ es ↦ (key, e ∷ es) ∷ later ]

-- `_prune_dependency_contexts`
unfoldable pub prune_dependencies : List String → Dict Dependency → Dict Dependency
prune_dependencies removed [] = []
prune_dependencies removed ((key, dep) ∷ rest) =
    (key, record dep { contexts = prune_contexts removed dep.contexts })
    ∷ prune_dependencies removed rest

module _ {F : Type 0} where
  -- the contexts are pruned if something was removed
  unfoldable pub pruned : List String → Pool F → Pool F
  pruned [] p = p
  pruned (mid ∷ mids) p = record p { dependencies = prune_dependencies (mid ∷ mids) p.dependencies }

module _ {F : Type 0} (cal : Calendar) where
  -- `expire(now)`: the number of entries removed
  unfoldable pub expire : ℤ → Pool F → ℕ × Pool F
  unfolding pruned
  expire now p =
      let to_remove = expired_ids cal now p.messages in
      (length to_remove, pruned to_remove (remove_all to_remove p))

  -- the channel that is asked for, if one is
  on_channel : Option String → Entry F → Bool
  on_channel none entry = true
  on_channel (some channel) entry = str_eq entry.channel channel

  is_superseded : Entry F → Bool
  is_superseded entry = elim entry.superseded_by [ none ↦ false | some new_id ↦ true ]

  unfoldable pub is_active : ℤ → Option String → Entry F → Bool
  unfolding on_channel is_superseded
  is_active now channel entry =
      not (is_superseded entry) && on_channel channel entry && not (is_expired cal now entry)

  -- `get_active_messages`
  unfoldable pub get_active_messages : ℤ → Option String → Pool F → List (Fields F)
  get_active_messages now channel p =
      map (λ e. e.1.message) (keep (λ e. is_active now channel e.1) p.messages)
