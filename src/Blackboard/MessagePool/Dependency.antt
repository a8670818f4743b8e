-- ===== src/Blackboard/MessagePool/Dependency.antt =====
-- `_check_dependencies`: a published message joins its context, and a context that has a message of
-- every required channel is handed to the callback and dropped.
use flephant.Base.{
  String, Bool, ◌&&◌, Option, none, some, List, [], ◌∷◌, ◌++◌, if◌then◌else◌, map, lookup, insert,
  erase, Dict, all,
}
use Prim.Native.String.{◌++◌ as join}
use flephant.Python.Value.{Fields, Runtime, str, get, get_or, truthy, text_of}
use flephant.Utils.SafeCast.{is_in}
use flephant.Blackboard.MessagePool.Types.{Entry, Context, Dependency, Pool, Event, activated, ids}

module _ {F : Type 0} ⦃py : Runtime F⦄ where
  -- `_dependency_correlation_key`
  unfoldable pub correlation_key : Fields F → String
  correlation_key message =
      let event_id = get "event_id" message in
      let patch_id = get "portfolio_patch_id" message in
      if truthy event_id
      then join "event_id:" (text_of event_id)
      else if truthy patch_id
      then join "portfolio_patch_id:" (text_of patch_id)
      else join "scope:" (text_of (get_or "scope" (str "") message))

-- `ids[-1]`, if there is one
unfoldable pub last_id : List String → Option String
last_id [] = none
last_id (x ∷ []) = some x
last_id (x ∷ y ∷ rest) = last_id (y ∷ rest)

-- `context["seen"] == dep["required"]`, two sets
unfoldable pub is_complete : List String → Context → Bool
is_complete required context =
    let seen = map (λ e. e.0) context in
    all (λ c. is_in c required) seen && all (λ c. is_in c seen) required

-- the context under a key, or a new one
context_at : String → Dict Context → Context
context_at key contexts = elim (lookup key contexts) [ none ↦ [] | some context ↦ context ]

module _ {F : Type 0} where
  -- `context["latest_messages"]`
  unfoldable pub latest_messages : Dict (Entry F) → Context → Dict (Fields F)
  latest_messages messages [] = []
  latest_messages messages ((channel, mid) ∷ rest) = elim (lookup mid messages) [
    | none ↦ latest_messages messages rest
    | some entry ↦ (channel, entry.message) ∷ latest_messages messages rest
  ]

module _ {F : Type 0} ⦃py : Runtime F⦄ where
  -- the dependency after its context has taken the message, and the call of its callback
  joined : Pool F → String → String → Fields F → Dependency → Dependency × List (Event F)
  unfolding context_at
  joined p channel mid message dep =
      let key = correlation_key message in
      let context = insert channel mid (context_at key dep.contexts) in
      if is_complete dep.required context
      then (
        record dep { contexts = erase key (insert key context dep.contexts) },
        activated dep.callback (latest_messages p.messages context) ∷ [],
      )
      else (record dep { contexts = insert key context dep.contexts }, [])

  -- One dependency. Every identifier of the index has its entry.
  unfoldable pub check_dependency : Pool F → String → Dependency → Dependency × List (Event F)
  unfolding joined
  check_dependency p channel dep =
      if is_in channel dep.required
      then elim (last_id (ids p channel)) [
        | none ↦ (dep, [])
        | some mid ↦ elim (lookup mid p.messages) [
          | none ↦ (dep, [])
          | some entry ↦ joined p channel mid entry.message dep
        ]
      ]
      else (dep, [])

  -- `_check_dependencies`
  unfoldable pub check_dependencies :
      Pool F → String → Dict Dependency → Dict Dependency × List (Event F)
  check_dependencies p channel [] = ([], [])
  check_dependencies p channel ((key, dep) ∷ rest) =
      let (dep', events) = check_dependency p channel dep in
      let (rest', later) = check_dependencies p channel rest in
      ((key, dep') ∷ rest', events ++ later)
