-- ===== src/Execution/Gateway/Types.antt =====
-- The data of new/src/execution/execution_gateway.py: the gateway's attributes, orders, reports,
-- what a call leaves behind (audit records and orders sent), and the outside world.
-- The latency fields and the constant zeros of `feedback_record` are left out.
use flephant.Base.{ℕ, String, Bool, Option, List}
use flephant.Base.Int.{ℤ}
use flephant.Python.Value.{Value, Fields}
use flephant.Execution.KillSwitch.{KillSwitch, TriggerReason}

-- `{"min_price": ..., "tick_size": ...}`
pub record Band : Type 0 where
  pub min_price : ℤ
  pub tick_size : ℤ

-- What reading an attribute of an injected object gives: nothing, a value, or something callable
-- that returns a value or raises.
pub data Attribute (F : Type 0) : Type 0 where
  missing : Attribute F
  value : Value F → Attribute F
  callable : Option (Value F) → Attribute F

-- The injected broker client, as far as the gateway inspects it.
pub record Client (F : Type 0) : Type 0 where
  pub mode : Attribute F
  pub auth_get_mode : Option (Attribute F)  -- `none`: no attribute `auth`
  pub has_submit_order : Bool
  pub accepts_price : Bool
  pub accepts_order_type : Bool

-- The attributes of `ExecutionGateway`. The tick bands are never empty: the constructor raises then.
pub record Gateway (F : Type 0) : Type 0 where
  pub mode : String
  pub live_enabled : Bool
  pub slippage_bps : F
  pub allowed_order_types : List String
  pub first_band : Band
  pub more_bands : List Band
  pub kill_switch : Option (KillSwitch F)
  pub has_audit_logger : Bool
  pub kis_client : Option (Client F)
  pub live_approval_proof : Fields F

-- The arguments of one `submit_order` call; the keywords only where the client takes them.
pub record Order (F : Type 0) : Type 0 where
  pub ticker : String
  pub side : String
  pub qty : ℤ
  pub price : Option F
  pub order_type : Option String

-- Why the gateway itself refused; the texts in the report say the same.
pub data OrderError (F : Type 0) : Type 0 where
  order_deltas_must_be_list : OrderError F
  order_delta_must_be_dict : ℕ → OrderError F
  invalid_order_delta : ℕ → String → String → ℤ → F → String → OrderError F
  invalid_order_delta_reason : ℕ → String → String → OrderError F

pub data ProofItem : Type 0 where
  prelive_gate prelive_gate_blockers deploy_quality service_policy_gate_pass registry_mutated :
      ProofItem
  sanitized_release sanitized_release_clean forbidden_entries secret_sources_in_zip : ProofItem
  broker_evidence active_version live_trading_allowed : ProofItem

pub data Reason (F : Type 0) : Type 0 where
  approved_must_be_bool no_order_deltas kill_switch_missing live_not_enabled : Reason F
  active_trade_universe_empty broker_dependency_missing submit_order_missing : Reason F
  audit_logger_missing audit_logger_unavailable : Reason F
  invalid_order_deltas : List (OrderError F) → Reason F
  veto : String → Reason F
  order_ticker_not_active_universe : List String → Reason F
  kill_switch_active : Option (TriggerReason F) → Reason F
  mode_requires_kis_client : String → String → Option String → Reason F
  live_approval_missing : List ProofItem → Reason F
  invalid_execution_mode : String → Reason F

-- Why the broker's answer to one order is no acceptance.
pub data BrokerReason : Type 0 where
  rt_cd status status_unknown : String → BrokerReason
  status_missing order_id_missing : BrokerReason

pub data SubmitRejection (F : Type 0) : Type 0 where
  invalid_delta broker_submit_exception : SubmitRejection F
  refused : BrokerReason → Fields F → SubmitRejection F

pub record Rejection (F : Type 0) : Type 0 where
  pub ticker : String
  pub side : String
  pub qty : ℤ
  pub reason : SubmitRejection F

pub data FillDetail (F : Type 0) : Type 0 where
  simulated : F → F → FillDetail F  -- snapshot_vwap, realized_slippage
  confirmed : String → String → Fields F → FillDetail F  -- broker_status, broker_order_id, answer

pub record Fill (F : Type 0) : Type 0 where
  pub ticker : String
  pub side : String
  pub qty : ℤ
  pub avg_fill_price : F
  pub fill_ts : String
  pub detail : FillDetail F

pub data Status : Type 0 where
  rejected filled partial_filled submitted : Status

pub data Lesson (F : Type 0) : Type 0 where
  no_lesson : Lesson F
  submissions_rejected : ℕ → Lesson F
  order_rejected : Reason F → Lesson F

pub record Report (F : Type 0) : Type 0 where
  pub order_plan_id : String
  pub submitted_at : String
  pub status : Status
  pub fills : List (Fill F)
  pub estimated_cost : F
  pub realized_slippage : F
  pub execution_mode : String
  pub rejections : List (Rejection F)
  pub rejection_reason : Option (Reason F)
  pub kb_message_id : String
  pub lesson_stub : Lesson F
  pub final_decision_ref : String
  pub n_fills : ℕ

-- What a call does to the outside, in the order in which it is done.
pub data Effect (F : Type 0) : Type 0 where
  pre_submit : String → String → ℕ → Effect F  -- plan, decision, number of orders
  execution_rejected execution_success : Report F → Effect F
  order_sent : Order F → Effect F

-- The effects so far, the newest first, and the universe that has been read and kept.
pub record World (F : Type 0) : Type 0 where
  pub trace : List (Effect F)
  pub active_trade_universe : Option (List String)

-- The outside: the clock, the configuration file, the broker (`none`: it raised) and whether the
-- audit log takes a record. The answers may depend on all that has happened so far.
pub record Env (F : Type 0) : Type 0 where
  pub now : String
  pub universe_config : Option (Value F)  -- `none`: it could not be loaded
  pub submit_order : List (Effect F) → Order F → Option (Value F)
  pub log_accepts : List (Effect F) → Effect F → Bool
  pub uniform : ℕ → F → F  -- `random.uniform(-x, x)`, at each draw
