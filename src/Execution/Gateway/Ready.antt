-- ===== src/Execution/Gateway/Ready.antt =====
-- What the branch on the mode needs before an order leaves: a broker of the right kind, and for live
-- orders the approvals.
use flephant.Base.{
  String, true, not, ◌≡◌, refl, ◌⊎◌, inl, inr, Option, none, some, List, [], ◌∷◌, arith, if_cases,
  option_cases, str_eq, eq_iff,
}
use flephant.Base.Result.{Result, ok, err}
use flephant.Python.Value.{Fields, Runtime, Raised}
use flephant.Execution.KillSwitch.{KillSwitch}
use flephant.Execution.Gateway.Types.{
  Client, Gateway, Reason, live_not_enabled, invalid_execution_mode, ProofItem, World, Env,
}
use flephant.Execution.Gateway.Approval.{
  broker_client_mode, broker_mode_rejection, is_mode, missing_approvals, live_approval_rejection,
}
use flephant.Execution.Gateway.Broker.{execute_broker}
use flephant.Execution.Gateway.Execute.{
  Outcome, reported, execute_paper, after_approval, execute_live, execute_mode,
}
use flephant.Execution.Gateway.Sends.{sent, sent-reject, execute_broker_cases}

is_mode_lem :
    (mode : Option String) (expected : String) → is_mode mode expected ≡ true → mode ≡ some expected
unfolding is_mode
is_mode_lem none expected h = cc
is_mode_lem (some mode) expected h = ground (arith, eq_iff mode expected)

module _ {F : Type 0} ⦃py : Runtime F⦄ where
  -- A client that can submit, whose mode is the one given, and an audit log.
  pub record HasBroker (g : Gateway F) (mode : String) : Type 0 where
    pub client : Client F
    pub injected : g.kis_client ≡ some client
    pub can_submit : client.has_submit_order ≡ true
    pub right_mode : broker_client_mode (some client) ≡ some mode
    pub logger : g.has_audit_logger ≡ true

  -- Paper orders go to a client of the virtual server. Live orders go to a client of the real one,
  -- with live trading enabled, nothing missing in the proof of approval, and a kill switch in place.
  abbrev pub IsReady : Gateway F → Type 0
  IsReady g =
      ((g.mode ≡ "paper") × HasBroker g "virtual")
      ⊎ ((g.mode ≡ "live")
          × HasBroker g "real"
          × (g.live_enabled ≡ true)
          × (missing_approvals g.live_approval_proof ≡ ok [])
          × ((k : KillSwitch F) × (g.kill_switch ≡ some k)))

  -- Either no order was sent, or `C` holds.
  abbrev pub SendsOnlyIf : Type 0 → World F → Outcome F → Type 0
  SendsOnlyIf C w r = (sent r.1.trace ≡ sent w.trace) ⊎ C

  right_client :
      (g : Gateway F) (mode : String) (client : Client F)
      → broker_mode_rejection g mode ≡ none
      → g.kis_client ≡ some client
      → broker_client_mode (some client) ≡ some mode
  unfolding broker_mode_rejection
  right_client g mode client accepted injected =
      ground (arith, is_mode_lem (broker_client_mode (some client)) mode)

  broker_sends :
      (g : Gateway F) (env : Env F) (plan decision mode : String) (ods : List (Fields F))
      (w : World F)
      → broker_mode_rejection g mode ≡ none
      → SendsOnlyIf (HasBroker g mode) w (reported (execute_broker g env plan decision ods w))
  broker_sends g env plan decision mode ods w accepted =
      execute_broker_cases (λ r. SendsOnlyIf (HasBroker g mode) w (reported r)) g env plan decision
        ods w (λ reason. inl (sent-reject g env plan decision reason w))
        λ client injected can logger taken. inr (record {
          client = client;
          injected = injected;
          can_submit = can;
          right_mode = right_client g mode client accepted injected;
          logger = logger;
        })

  paper_sends :
      (g : Gateway F) (env : Env F) (plan decision : String) (ods : List (Fields F)) (w : World F)
      → SendsOnlyIf (HasBroker g "virtual") w (execute_paper g env plan decision ods w)
  unfolding execute_paper
  paper_sends g env plan decision ods w =
      option_cases (SendsOnlyIf (HasBroker g "virtual") w) (broker_mode_rejection g "virtual")
        (broker_sends g env plan decision "virtual" ods w)
        (λ reason e. inl (sent-reject g env plan decision reason w))

  -- What the live branch needs besides the kill switch.
  abbrev pub IsApproved : Gateway F → Type 0
  IsApproved g =
      HasBroker g "real"
      × (g.live_enabled ≡ true)
      × (missing_approvals g.live_approval_proof ≡ ok [])

  nothing_missing :
      (g : Gateway F)
      → live_approval_rejection g ≡ ok none
      → missing_approvals g.live_approval_proof ≡ ok []
  unfolding live_approval_rejection
  nothing_missing g h = go (missing_approvals g.live_approval_proof) refl
    where
      go :
          (m : Result Raised (List ProofItem))
          → missing_approvals g.live_approval_proof ≡ m
          → m ≡ ok []
      go (err e) p = ground arith
      go (ok []) p = refl
      go (ok (a ∷ as')) p = ground arith

  approval_sends :
      (g : Gateway F) (env : Env F) (plan decision : String) (ods : List (Fields F)) (w : World F)
      (r : Result Raised (Option (Reason F)))
      → live_approval_rejection g ≡ r
      → g.live_enabled ≡ true
      → SendsOnlyIf (IsApproved g) w (after_approval g env plan decision ods w r)
  unfolding after_approval
  approval_sends g env plan decision ods w (err e) p live = inl refl
  approval_sends g env plan decision ods w (ok (some reason)) p live =
      inl (sent-reject g env plan decision reason w)
  approval_sends g env plan decision ods w (ok none) p live =
      option_cases (SendsOnlyIf (IsApproved g) w) (broker_mode_rejection g "real")
        (λ accepted. elim (broker_sends g env plan decision "real" ods w accepted) [
          | inl same ↦ inl same
          | inr ready ↦ inr (ready, live, nothing_missing g p)
        ])
        (λ reason e. inl (sent-reject g env plan decision reason w))

  live_sends :
      (g : Gateway F) (env : Env F) (plan decision : String) (ods : List (Fields F)) (w : World F)
      → SendsOnlyIf (IsApproved g) w (execute_live g env plan decision ods w)
  unfolding execute_live
  live_sends g env plan decision ods w =
      if_cases (SendsOnlyIf (IsApproved g) w) (not g.live_enabled)
        (λ e. inl (sent-reject g env plan decision live_not_enabled w))
        (λ e.
          approval_sends g env plan decision ods w (live_approval_rejection g) refl (ground arith))

  -- What the branch on the mode needs.
  abbrev pub IsModeReady : Gateway F → Type 0
  IsModeReady g = ((g.mode ≡ "paper") × HasBroker g "virtual") ⊎ ((g.mode ≡ "live") × IsApproved g)

  pub mode_sends :
      (g : Gateway F) (env : Env F) (plan decision : String) (ods : List (Fields F)) (w : World F)
      → SendsOnlyIf (IsModeReady g) w (execute_mode g env plan decision ods w)
  unfolding execute_mode
  mode_sends g env plan decision ods w =
      if_cases P (str_eq g.mode "mock") (λ e. inl refl)
        λ not_mock.
          if_cases P (str_eq g.mode "paper")
            (λ e. elim (paper_sends g env plan decision ods w) [
              | inl same ↦ inl same
              | inr ready ↦ inr (inl ((eq_iff g.mode "paper").0 e, ready))
            ])
            λ not_paper.
              if_cases P (str_eq g.mode "live")
                (λ e. elim (live_sends g env plan decision ods w) [
                  | inl same ↦ inl same
                  | inr ready ↦ inr (inr ((eq_iff g.mode "live").0 e, ready))
                ])
                (λ e. inl (sent-reject g env plan decision (invalid_execution_mode g.mode) w))
    where
      P : Outcome F → Type 0
      P = SendsOnlyIf (IsModeReady g) w
