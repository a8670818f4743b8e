-- ===== src/Lib.antt =====
-- Flephant's order path and its pipeline state, modelled from the Python sources under
-- new/src.
--
-- The program decides on stock orders by agents that exchange messages, and hands each final
-- decision to the execution gateway. The portfolio manager turns weights into the orders of a
-- decision; the gateway checks the decision, the universe of tradable stocks, the kill switch
-- and the proof of approval, writes to the audit log, and sends the orders to the broker. A
-- state machine holds the run state of the pipeline. The dynamic universe admits stocks by
-- events, promotes them to holdings and gives them up again; its admission engine fills a
-- pool of candidates that its holdings manager and exit engine empty, and its manager runs
-- the cycle of the three behind a gate.
--
-- * Ops/StateMachine.antt is new/src/ops/state_machine.py: PipelineState, the tables of
--   transitions and StateMachine.transition. The history is kept newest first; in the code
--   the newest record is the last.
-- * Ops/SafetyGuards.antt is new/src/ops/safety_guards.py, with the guards and check_all in
--   SafetyGuards/Checks; the other files there prove. The items of the price check leave out
--   the threshold, which is the same for all.
-- * Execution/KillSwitch.antt is new/src/execution/kill_switch.py: check_daily_pnl, trigger
--   and reset on the record of the object's attributes. The text of a reason is data: what
--   was compared, or the caller's words.
-- * Execution/Gateway is new/src/execution/execution_gateway.py. Types has the attributes,
--   orders and reports; Normalize is _normalize_order_deltas with the tick bands; Approval is
--   _broker_client_mode, _broker_mode_rejection and _live_approval_rejection; Universe is
--   _active_universe_rejection and what it loads; Audit is _audit and _rejected; Submit and
--   Broker are _execute_broker; Mock is _execute_mock; Execute is execute. The other files
--   there prove.
-- * Blackboard/MessagePool is new/src/blackboard/message_pool.py. Types has the entries, the
--   pool and its events; Validate is part 1 of publish; Publish the rest of it; Expire is
--   expire and get_active_messages; Dependency is _check_dependencies; Operations has the
--   other operations and the calls that can be made. The other files there prove.
-- * DynamicUniverse/Gate.antt is new/src/dynamic_universe/gate.py: the state of the cache and
--   the log of transitions.
-- * DynamicUniverse/Admission is new/src/dynamic_universe/admission_engine.py. Extract reads
--   an event; Rules is _match_admission_rules; Handle is handle_event and remove_from_pool.
--   Cases and Safety prove.
-- * DynamicUniverse/Holdings.antt is new/src/dynamic_universe/holdings_manager.py:
--   promote_to_holdings, remove and get_holdings, on a dict of entries by ticker.
-- * DynamicUniverse/Exit.antt is new/src/dynamic_universe/exit_engine.py: the four tests of a
--   holding and evaluate. An exception of a time that cannot be compared is an answer of
--   evaluate; the holdings removed before it stay removed.
-- * DynamicUniverse/Manager.antt is new/src/dynamic_universe/manager.py: cycle_once and
--   handle_admission_event over the state of all four parts.
-- * Portfolio is new/src/portfolio/portfolio_manager.py. Targets is the first half of plan,
--   up to the limits on names; Orders is what is held, the turnover and the loop over the
--   tickers; Plan puts them together; Accepted hands the orders to the gateway.
-- * Data/BarBuffer.antt is new/src/data/bar_buffer.py: the bars of each ticker, the oldest
--   first, with push, the readers and clear; BarBuffer/Asof has the readers up to a time.
-- * Ops/JobStore.antt is new/src/ops/post_close_job_store.py: the table of runs as a dict by
--   its primary key. JobStore/Refinement compares it with a history, which is a function from
--   identifiers to runs.
-- * Execution/Gateway/Ticks.antt compares the loop of _tick_size_for_price with a search of
--   all the bands.
-- * Utils/RateLimiter.antt is new/src/utils/rate_limiter.py. The clock is a function from the
--   number of the reading; what a sleep does to the clock is in that function, and how long
--   is slept is pause.
-- * Utils is new/src/utils/safe_cast.py and two functions of new/src/utils/ticker_utils.py.
-- * Python is what the sources use of the language: text, and values whose type is only known
--   by isinstance. Base has the shared names, lists, dicts with text keys and integers.
--
-- The type of floats is a parameter F, and the record Runtime F has the operations of
-- Python's float and of str and repr on lists and dicts. Nothing is assumed about them but in
-- two places, the bounds of the rate limiter and the order of the tick bands, where laws of
-- IEEE floats are named hypotheses; all else that is proved holds for any arithmetic. An int
-- that is too large for float() is outside the model; the code raises OverflowError there.
-- The expiry that publish computes is checked against the latest date, datetime.max, and
-- raises beyond it. Case mapping and isdigit are modelled on ASCII text. Dicts have text
-- keys.
--
-- Handlers and callbacks of the pool are numbers, and what they are called with is an event;
-- they do not call the pool or change a message. A filter is a function that may raise.
-- Identifiers of messages are texts. A message is a value of its own: that the caller keeps
-- the dict that it published is not modelled.
--
-- A stateful method is a function from the state to its answer and the state after it; where
-- the code raises, the answer is the exception. The broker, the audit log, the clock, the
-- configuration file and the random numbers are fields of the record Env; the broker and the
-- audit log may answer by all that has happened before. What a call leaves behind is a trace
-- of effects, the newest first: records of the audit log and orders sent.
--
-- Every loop runs over a list or over the fields of a value and is structural recursion, but
-- for the wait of the rate limiter: that has as many rounds as fuel, and ends once the clock
-- has passed the deadline.
--
-- Left out: logging, the latency fields and the constant zeros of a report, the position of
-- the price arguments of submit_order (an order has a price or an order type only where the
-- client takes it), the constructors' reading of their configuration apart from the tick
-- bands, the files that the dynamic universe writes, and the file that a job store is kept
-- in. JSON is a parameter of the job store, and datetime.fromisoformat one of what reads
-- times: the record Calendar. The turnover of a plan is a sum over a set of tickers, which
-- Python takes in no fixed order; it is taken in the order of the tickers here. The agents,
-- the models, the data connectors, the runners and the scripts are not modelled.
pub mod Base
pub mod Blackboard
pub mod Data
pub mod DynamicUniverse
pub mod Execution
pub mod Ops
pub mod Portfolio
pub mod Python
pub mod Utils
