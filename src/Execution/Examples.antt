-- ===== src/Execution/Examples.antt =====
-- The gateway and the kill switch on concrete decisions: a paper gateway, a broker that accepts what
-- it is sent, and the runs that the theorems are applied to.
use flephant.Base.{
  ◌++◌, String, Bool, str_eq, arith, eq_iff, true, false, ◌≡◌, refl, ◌≢◌, ◌↔◌, ◌⊎◌, none, some,
  List, [], ◌∷◌, All, length, keep, map,
}
use flephant.Base.Result.{ok, err}
use flephant.Base.Int.{ℤ, pos, negsuc, ◌*ℤ◌}
use flephant.Python.Value.{
  Value, Fields, int, str, bool, list, dict, nil, cons, end, field, or_else, text_of,
}
use flephant.Python.Whole.{whole}
use flephant.Execution.KillSwitch.{
  KillSwitch, given, run, check_daily_pnl, reset, Call, checks, triggers, resets,
  invalid_operator_token,
}
use flephant.Execution.KillSwitch.Latch.{run_latched, check_daily_pnl_lem, reset_lem}
use flephant.Execution.Gateway.Types.{
  Client, Gateway, Attribute, rejected, Report, Effect, World, Env,
}
use flephant.Execution.Gateway.Normalize.{
  normalize_order_deltas, normalize_delta, normalize_limit_price, normalize_loop, order_type_of,
  tick_size_for_price, valid_order_delta,
}
use flephant.Execution.Gateway.Approval.{broker_client_mode}
use flephant.Execution.Gateway.Universe.{
  active_universe_rejection, get_active_trade_universe, sorted_set,
}
use flephant.Execution.Gateway.Broker.{submit_all, execute_broker, broker_report}
use flephant.Execution.Gateway.Execute.{
  reported, finish, switch_rejection, order_deltas_of, execute,
}
use flephant.Execution.Gateway.Sends.{sent, newest_first}
use flephant.Execution.Gateway.Ready.{HasBroker}
use flephant.Execution.Gateway.Safety.{IsCleared, IsDecided, execute_sends-IsCleared}
use flephant.Execution.Gateway.Accounting.{IsAccounted, submit_all_accounts}
use flephant.Execution.Gateway.Records.{records, IsAudited, broker_rejection_unrecorded}
use flephant.Execution.Gateway.Orders.{IsTradable, execute_broker-IsTradable}
use flephant.Execution.Gateway.Recorded.{execute-IsAudited}
use flephant.Execution.Gateway.Path.{execute_paper_reached}
use flephant.Execution.Gateway.Submit.{
  order_of, answer_fields, answered, broker_response_rejection_reason, delta_is_valid, reject_one,
  submit_delta,
}
use flephant.Utils.TickerUtils.{is_valid_ticker, pad_ticker}
use flephant.Utils.SafeCast.{is_in, safe_float, safe_lossless_int}
use flephant.Python.Text.{lower, strip}

abbrev switch_in : Bool → KillSwitch ℤ
switch_in active = record {
  threshold = pos 3;
  action = "halt";
  operator_token = "token";
  active = active;
  trigger_reason = none;
  trigger_ts = none;
}

abbrev switch : KillSwitch ℤ
switch = switch_in false

abbrev tripped : KillSwitch ℤ
tripped = switch_in true

abbrev later_calls : List (Call ℤ)
later_calls = checks "09:01" (negsuc 8) ∷ triggers "09:02" (given "again") ∷ resets "guess" ∷ []

run_latched_example : run tripped later_calls ≡ tripped
run_latched_example =
    run_latched tripped later_calls refl
      (tt, (tt, ((λ e. ground (arith, eq_iff "guess" "token")), tt)))

check_daily_pnl_example :
    let (answer, k') = check_daily_pnl "09:00" (negsuc 8) switch in
    (k'.active ≡ answer)
    × ((answer ≡ true → (switch.active ≡ true) ⊎ (whole.le (negsuc 8) (whole.neg (pos 3)) ≡ true)))
    × (((switch.active ≡ true) ⊎ (whole.le (negsuc 8) (whole.neg (pos 3)) ≡ true) → answer ≡ true))
check_daily_pnl_example = check_daily_pnl_lem "09:00" (negsuc 8) switch

abbrev token : String
token = "token"

reset_example :
    let (answer, k') = reset token tripped in
    (token ≡ token → (answer ≡ ok tt) × (k'.active ≡ false))
    × (token ≢ token → (answer ≡ err invalid_operator_token) × (k' ≡ tripped))
reset_example = reset_lem token tripped (λ e. cc)

abbrev client : Client ℤ
client = record {
  mode = Attribute.value (str "virtual");
  auth_get_mode = none;
  has_submit_order = true;
  accepts_price = true;
  accepts_order_type = true;
}

abbrev gateway : Gateway ℤ
gateway = record {
  mode = "paper";
  live_enabled = false;
  slippage_bps = pos 5;
  allowed_order_types = "00" ∷ "01" ∷ [];
  first_band = record { min_price = pos 0; tick_size = pos 1 };
  more_bands = record { min_price = pos 2000; tick_size = pos 5 } ∷ [];
  kill_switch = some switch;
  has_audit_logger = true;
  kis_client = some client;
  live_approval_proof = end;
}

abbrev delta : String → String → Fields ℤ
delta ticker side = field "ticker" (str ticker) (
    field "side" (str side) (
      field "qty" (int (pos 2)) (
        field "price" (Value.float (pos 70000))
          (field "order_type" (str "00") (field "reason" (str "rebalance") end)))))

abbrev deltas : List (Fields ℤ)
deltas = delta "005930" "buy" ∷ delta "000660" "sell" ∷ []

abbrev decision : Fields ℤ
decision = field "decision_id" (str "D1") (
    field "approved" (bool true) (
      field "order_deltas"
        (list (cons (dict (delta "005930" "buy")) (cons (dict (delta "000660" "sell")) nil))) end))

-- The broker takes what is bought and refuses what is sold.
abbrev env : Env ℤ
env = record {
  now = "2026-04-21T09:00:00+09:00";
  universe_config = none;
  submit_order = λ trace order. some (
      dict (elim (str_eq order.side "buy") [
        | true ↦ field "status" (str "filled") (field "order_id" (str "1") end)
        | false ↦ field "status" (str "rejected") end
      ]));
  log_accepts = λ trace e. true;
  uniform = λ n x. pos 0;
}

-- The universe has been read before.
abbrev world : World ℤ
world = record { trace = []; active_trade_universe = some ("000660" ∷ "005930" ∷ []) }

submit_all_accounts_example :
    let report = (submit_all gateway env client "P" "D1" deltas world).0 in
    IsAccounted gateway client deltas report.fills report.rejections
    × ((report.status ≡ rejected) ↔ (length report.rejections ≡ 2))
submit_all_accounts_example = submit_all_accounts gateway env client "P" "D1" deltas world

execute_sends-IsCleared_example :
    (sent (execute gateway env "P" decision world).1.trace ≡ [])
    ⊎ (IsCleared gateway × IsDecided gateway decision)
execute_sends-IsCleared_example = execute_sends-IsCleared gateway env "P" decision world

execute_broker-IsTradable_example :
    All IsTradable (sent (execute_broker gateway env "P" "D1" deltas world).1.trace)
execute_broker-IsTradable_example = execute_broker-IsTradable gateway env "P" "D1" deltas world tt

execute-IsAudited_example :
    (es : List (Effect ℤ)) × ((execute gateway env "P" decision world).1.trace ≡ es ++ [])
    × IsAudited "P" "D1" (length (normalize_order_deltas gateway (order_deltas_of decision)).0) es
unfolding text_of
execute-IsAudited_example = execute-IsAudited gateway env "P" decision world

abbrev sales : List (Fields ℤ)
sales = delta "000660" "sell" ∷ []

sales_refused : (submit_all gateway env client "P" "D1" sales world).0.status ≡ rejected
unfolding submit_all broker_report submit_delta delta_is_valid valid_order_delta text_of
    is_valid_ticker is_in lower safe_lossless_int order_type_of or_else safe_float answered
    broker_response_rejection_reason answer_fields reject_one
sales_refused = refl

broker_rejection_unrecorded_example :
    records
      (finish gateway env (reported (submit_all gateway env client "P" "D1" sales world))).1.trace
    ≡ []
broker_rejection_unrecorded_example =
    broker_rejection_unrecorded gateway env client "P" "D1" sales world sales_refused

client_is_virtual : broker_client_mode (some client) ≡ some "virtual"
unfolding broker_client_mode lower strip text_of
client_is_virtual = refl

abbrev has_broker : HasBroker gateway "virtual"
has_broker = record {
  client = client;
  injected = refl;
  can_submit = refl;
  right_mode = client_is_virtual;
  logger = refl;
}

decision_normalizes : normalize_order_deltas gateway (order_deltas_of decision) ≡ (deltas, [])
unfolding normalize_order_deltas normalize_loop normalize_delta valid_order_delta pad_ticker text_of
    is_valid_ticker is_in lower safe_lossless_int or_else safe_float normalize_limit_price ◌*ℤ◌
    tick_size_for_price
decision_normalizes = refl

decision_inside : active_universe_rejection gateway env deltas world ≡ (ok none, world)
unfolding active_universe_rejection is_in get_active_trade_universe sorted_set keep strip text_of
decision_inside = refl

switch_is_off : switch_rejection gateway ≡ none
unfolding switch_rejection
switch_is_off = refl

execute_paper_reached_example :
    ((report : Report ℤ) × ((execute gateway env "P" decision world).0 ≡ ok report))
    × (sent (execute gateway env "P" decision world).1.trace
        ≡ newest_first (map (order_of client) (keep (delta_is_valid gateway client) deltas)) [])
unfolding text_of
execute_paper_reached_example =
    execute_paper_reached gateway env "P" decision world world (delta "005930" "buy")
      (delta "000660" "sell" ∷ []) has_broker refl refl decision_normalizes decision_inside
      switch_is_off refl

both_sent : length (keep (delta_is_valid gateway client) deltas) ≡ 2
unfolding keep delta_is_valid valid_order_delta text_of is_valid_ticker is_in lower
    safe_lossless_int order_type_of or_else safe_float
both_sent = refl
