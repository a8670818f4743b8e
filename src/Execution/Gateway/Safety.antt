-- ===== src/Execution/Gateway/Safety.antt =====
-- No order leaves the gateway unless every guard has been passed.
use flephant.Base.{
  String, Bool, true, false, ◌≡◌, refl, ap, ◌≢◌, ◌∙◌, ◌⊎◌, inl, inr, Option, none, some, List, [],
  ◌∷◌, arith, option_cases, Option-cases, eq_iff,
}
use flephant.Base.Result.{Result, ok, err}
use flephant.Python.Value.{Value, Fields, Runtime, Raised, bool, str, get, get_or, text_of}
use flephant.Execution.KillSwitch.{KillSwitch}
use flephant.Execution.Gateway.Types.{
  Gateway, Reason, approved_must_be_bool, OrderError, execution_success, World, Env,
}
use flephant.Execution.Gateway.Normalize.{normalize_order_deltas}
use flephant.Execution.Gateway.Universe.{active_universe_rejection, get_active_trade_universe}
use flephant.Execution.Gateway.Execute.{
  Outcome, execute_mode, audit_success, finish, switch_rejection, after_universe, execute_orders,
  decision_rejection, execute_normalized, execute_approved, order_deltas_of, execute,
}
use flephant.Execution.Gateway.Ready.{IsReady, IsModeReady, SendsOnlyIf, mode_sends}
use flephant.Execution.Gateway.Sends.{sent, sent-audit, sent-reject}

module _ {F : Type 0} ⦃py : Runtime F⦄ where
  pub sent-finish :
      (g : Gateway F) (env : Env F) (r : Outcome F) → sent (finish g env r).1.trace ≡ sent r.1.trace
  unfolding finish audit_success
  sent-finish g env (err e, w) = refl
  sent-finish g env (ok report, w) = ground (arith, sent-audit g env (execution_success report) w)

  switch_passed :
      (g : Gateway F)
      → switch_rejection g ≡ none
      → ((k : KillSwitch F) → g.kill_switch ≡ some k → k.active ≡ false)
        × (g.mode ≡ "live" → (k : KillSwitch F) × (g.kill_switch ≡ some k))
  unfolding switch_rejection
  switch_passed g h = elim (Option-cases g.kill_switch) [
    | inl e ↦ (λ k p. ground arith, λ live. absurd (ground (arith, eq_iff g.mode "live")))
    | inr (k, e) ↦ (λ j p. ground arith, λ live. (k, e))
  ]

  -- Every guard at once, the switch included.
  abbrev pub IsCleared : Gateway F → Type 0
  IsCleared g = IsReady g × ((k : KillSwitch F) → g.kill_switch ≡ some k → k.active ≡ false)

  universe_sends :
      (g : Gateway F) (env : Env F) (plan decision : String) (ods : List (Fields F))
      (r : Result Raised (Option (Reason F)) × World F)
      → SendsOnlyIf (IsCleared g) r.1 (after_universe g env plan decision ods r)
  unfolding after_universe
  universe_sends g env plan decision ods (err e, w) = inl refl
  universe_sends g env plan decision ods (ok (some reason), w) =
      inl (sent-reject g env plan decision reason w)
  universe_sends g env plan decision ods (ok none, w) =
      option_cases (SendsOnlyIf (IsCleared g) w) (switch_rejection g)
        (λ passed. finished (switch_passed g passed) (mode_sends g env plan decision ods w))
        (λ reason e. inl (sent-reject g env plan decision reason w))
    where
      finished :
          ((k : KillSwitch F) → g.kill_switch ≡ some k → k.active ≡ false)
            × (g.mode ≡ "live" → (k : KillSwitch F) × (g.kill_switch ≡ some k))
          → SendsOnlyIf (IsModeReady g) w (execute_mode g env plan decision ods w)
          → SendsOnlyIf (IsCleared g) w (finish g env (execute_mode g env plan decision ods w))
      finished p (inl same) =
          inl (sent-finish g env (execute_mode g env plan decision ods w) ∙ same)
      finished p (inr (inl paper)) = inr (inl paper, p.0)
      finished p (inr (inr (live, a))) = inr (inr (live, a.0, a.1, a.2, p.1 live), p.0)

  -- Looking the universe up sends nothing.
  pub trace-active_universe_rejection :
      (g : Gateway F) (env : Env F) (ods : List (Fields F)) (w : World F)
      → (active_universe_rejection g env ods w).1.trace ≡ w.trace
  unfolding active_universe_rejection get_active_trade_universe
  trace-active_universe_rejection g env ods w = ground arith

  -- What `execute` needs of the decision.
  abbrev pub IsDecided : Gateway F → Fields F → Type 0
  IsDecided g d =
      (get "approved" d ≡ bool true)
      × ((normalize_order_deltas g (order_deltas_of d)).1 ≡ [])
      × ((normalize_order_deltas g (order_deltas_of d)).0 ≢ [])

  decided :
      (d : Fields F) (approved : Bool) (ods : List (Fields F)) (errors : List (OrderError F))
      → decision_rejection d approved ods errors ≡ none
      → (approved ≡ true) × (errors ≡ []) × (ods ≢ [])
  unfolding decision_rejection
  decided d approved ods (e ∷ es) h = cc
  decided d false ods [] h = cc
  decided d true [] [] h = cc
  decided d true (od ∷ ods) [] h = (refl, refl, λ e. cc)

  normalized_sends :
      (g : Gateway F) (env : Env F) (plan decision : String) (d : Fields F) (approved : Bool)
      (w : World F) (r : List (Fields F) × List (OrderError F))
      → SendsOnlyIf
          (IsCleared g × (approved ≡ true) × (r.1 ≡ []) × (r.0 ≢ []))
          w
          (execute_normalized g env plan d decision approved w r)
  unfolding execute_normalized execute_orders
  normalized_sends g env plan decision d approved w (ods, errors) =
      option_cases (SendsOnlyIf _ w) (decision_rejection d approved ods errors)
        (λ e.
          let (a, b, c) = decided d approved ods errors e in
          let same = trace-active_universe_rejection g env ods w in
          elim (universe_sends g env plan decision ods (active_universe_rejection g env ods w)) [
            | inl none_sent ↦ inl (none_sent ∙ ap sent same)
            | inr cleared ↦ inr (cleared, a, b, c)
          ])
        (λ reason e. inl (sent-reject g env plan decision reason w))

  approved_sends :
      (g : Gateway F) (env : Env F) (plan decision : String) (d : Fields F) (v : Value F)
      (w : World F)
      → SendsOnlyIf
          (IsCleared g
            × (v ≡ bool true)
            × ((normalize_order_deltas g (order_deltas_of d)).1 ≡ [])
            × ((normalize_order_deltas g (order_deltas_of d)).0 ≢ []))
          w
          (execute_approved g env plan d decision v w)
  unfolding execute_approved
  approved_sends g env plan decision d (bool approved) w =
      elim (normalized_sends g env plan decision d approved w
        (normalize_order_deltas g (order_deltas_of d))) [
          | inl same ↦ inl same
          | inr (cleared, a, b, c) ↦ inr (cleared, ap Value.bool a, b, c)
        ]
  approved_sends g env plan decision d _ w =
      inl (sent-reject g env plan decision approved_must_be_bool w)

  -- A call of `execute` sends no order, unless the decision is approved (by a bool), all its deltas
  -- are valid and there is one, the kill switch, if there is one, is not active, an audit log is
  -- there, and the client can submit; and unless, in paper mode, the client is that of the virtual
  -- server, or, in live mode, that of the real one, with live trading enabled, nothing missing in the
  -- proof of approval and a kill switch in place. In any other mode nothing is sent.
  pub execute_sends-IsCleared :
      (g : Gateway F) (env : Env F) (plan : String) (d : Fields F) (w : World F)
      → (sent (execute g env plan d w).1.trace ≡ sent w.trace) ⊎ (IsCleared g × IsDecided g d)
  unfolding execute
  execute_sends-IsCleared g env plan d w =
      elim (approved_sends g env plan (text_of (get_or "decision_id" (str "") d)) d
        (get "approved" d) w) [
          | inl same ↦ inl same
          | inr (cleared, a, b, c) ↦ inr (cleared, (a, b, c))
        ]
