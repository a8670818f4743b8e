-- ===== src/Blackboard/MessagePool/Types.antt =====
-- The data of `MessagePool`: entries, subscriptions, dependencies and the pool itself. Instants are
-- whole microseconds. A handler, a callback or a filter does not change a message or call the pool;
-- handlers and callbacks are numbers here, and what they are called with is an event.
use flephant.Base.{ℕ, String, Bool, Option, none, some, List, [], Dict, lookup}
use flephant.Base.Int.{ℤ}
use flephant.Python.Value.{Fields}
pub use flephant.Python.Calendar.{Calendar}

-- `_MessageEntry`
pub record Entry (F : Type 0) : Type 0 where
  pub message_id : String
  pub channel : String
  pub message : Fields F
  pub ack_count : ℕ
  pub acked_by : List String
  pub created_at : ℤ
  pub superseded_by : Option String

-- A filter gives `none` where it raises.
pub record Subscription (F : Type 0) : Type 0 where
  pub handler : ℕ
  pub filter_fn : Option (Fields F → Option Bool)

-- A context is the dict from a channel to the identifier of its latest message; `seen` is the set of
-- its keys, and `latest_messages` has the messages that its identifiers name.
abbrev pub Context : Type 0
Context = Dict String

pub record Dependency : Type 0 where
  pub required : List String
  pub callback : ℕ
  pub contexts : Dict Context

pub record Pool (F : Type 0) : Type 0 where
  pub default_ttl_sec : ℤ
  pub max_pool_size : ℤ
  pub messages : Dict (Entry F)
  pub by_channel : Dict (List String)
  pub subscribers : Dict (List (Subscription F))
  pub dependencies : Dict Dependency

-- What a call does to the outside.
pub data Event (F : Type 0) : Type 0 where
  delivered : ℕ → Fields F → Event F
  activated : ℕ → Dict (Fields F) → Event F

pub data PoolError : Type 0 where
  invalid_scope : String → PoolError
  missing_fields : List String → PoolError
  invalid_field : String → PoolError
  unhashable : String → PoolError
  invalid_datetime : String → PoolError
  pit_violation filter_raised : PoolError
  message_id_conflict : String → PoolError
  message_id_not_text : PoolError
  pool_overflow date_overflow : PoolError
  ack_target_not_found message_expired : String → PoolError
  supersede_conflict : String → PoolError

module _ {F : Type 0} where
  -- `self._by_channel[channel]`
  abbrev pub ids : Pool F → String → List String
  ids p channel = elim (lookup channel p.by_channel) [ none ↦ [] | some found ↦ found ]

  -- `self._subscribers[channel]`
  abbrev pub subscriptions : Pool F → String → List (Subscription F)
  subscriptions p channel = elim (lookup channel p.subscribers) [ none ↦ [] | some found ↦ found ]

  -- `MessagePool(config)`, with the two numbers of its configuration
  unfoldable pub empty_pool : ℤ → ℤ → Pool F
  empty_pool default_ttl_sec max_pool_size = record {
    default_ttl_sec = default_ttl_sec;
    max_pool_size = max_pool_size;
    messages = [];
    by_channel = [];
    subscribers = [];
    dependencies = [];
  }
