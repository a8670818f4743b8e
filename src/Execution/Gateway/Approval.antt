-- ===== src/Execution/Gateway/Approval.antt =====
-- What must be shown before a live order: the proof of approval, and a broker client of the right
-- mode. `Raised` stands for the exception that `list(x)` is for an `x` that cannot be listed.
use flephant.Base.{
  String, Bool, true, false, not, ◌&&◌, Option, none, some, List, [], ◌∷◌, ◌++◌, str_eq,
  if◌then◌else◌,
}
use flephant.Base.Result.{Result, ok, err, ◌>>=◌}
use flephant.Python.Text.{lower, upper, strip}
use flephant.Python.Value.{
  Value, Fields, Runtime, Raised, type_error, null, bool, int, float, str, dict, get, get_or,
  is_dict, fields_of, is_null, truthy, or_else, text_of, nonempty,
}
use flephant.Utils.SafeCast.{safe_bool}
use flephant.Execution.Gateway.Types.{
  Attribute, missing, value, callable, Client, Gateway, Reason, broker_dependency_missing,
  mode_requires_kis_client, live_approval_missing, ProofItem, prelive_gate, prelive_gate_blockers,
  deploy_quality, service_policy_gate_pass, registry_mutated, sanitized_release,
  sanitized_release_clean, forbidden_entries, secret_sources_in_zip, broker_evidence,
  active_version, live_trading_allowed,
}

module _ {F : Type 0} where
  -- What `mode` is after the attribute is read, and called if it can be.
  read_attribute : Attribute F → Value F
  read_attribute missing = null
  read_attribute (value v) = v
  read_attribute (callable (some v)) = v
  read_attribute (callable none) = null

  -- `get_mode` is only used if it can be called
  call_attribute : Attribute F → Value F
  call_attribute (callable (some v)) = v
  call_attribute _ = null

  client_mode_value : Client F → Value F
  unfolding read_attribute call_attribute
  client_mode_value c =
      let mode = read_attribute c.mode in
      if is_null mode
      then elim c.auth_get_mode [ none ↦ mode | some get_mode ↦ call_attribute get_mode ]
      else mode

-- `client_mode != expected_mode`, where `client_mode` may be None
unfoldable pub is_mode : Option String → String → Bool
is_mode none expected = false
is_mode (some mode) expected = str_eq mode expected

abbrev noted : Bool → ProofItem → List ProofItem
noted true item = item ∷ []
noted false item = []

module _ {F : Type 0} ⦃py : Runtime F⦄ where
  -- `_broker_client_mode`
  unfoldable pub broker_client_mode : Option (Client F) → Option String
  unfolding client_mode_value
  broker_client_mode none = none
  broker_client_mode (some c) =
      let mode = client_mode_value c in
      if is_null mode then none else some (lower (strip (text_of mode)))

  -- `_broker_mode_rejection`
  unfoldable pub broker_mode_rejection : Gateway F → String → Option (Reason F)
  unfolding is_mode
  broker_mode_rejection g expected_mode = elim g.kis_client [
    | none ↦ some broker_dependency_missing
    | some c ↦
        let client_mode = broker_client_mode (some c) in
        if not (is_mode client_mode expected_mode)
        then some (mode_requires_kis_client g.mode expected_mode client_mode)
        else none
  ]

  status_field : Value F → Value F
  status_field (dict d) =
      or_else (or_else (get "status" d) (get "overall_status" d)) (get "gate_status" d)
  status_field v = v

  -- `_proof_status_is_pass`
  unfoldable pub proof_status_is_pass : Value F → Bool
  unfolding status_field
  proof_status_is_pass v =
      str_eq (upper (strip (text_of (or_else (status_field v) (str ""))))) "PASS"

  stage_passed : Fields F → String → Bool
  stage_passed stage_statuses stage =
      str_eq (upper (text_of (get_or stage (str "") stage_statuses))) "PASS"

  -- `_broker_evidence_is_live_approved`
  unfoldable pub broker_evidence_is_live_approved : Value F → Bool
  unfolding proof_status_is_pass stage_passed
  broker_evidence_is_live_approved (dict d) =
      let stage_statuses = fields_of (get "stage_statuses" d) in
      proof_status_is_pass (dict d)
      && safe_bool (get "external_kis_api" d) false
      && safe_bool (get "bundle_match" d) false
      && safe_bool (get "paper_auto_cycle_history_matched" d) false
      && stage_passed stage_statuses "paper_auto_cycle"
      && stage_passed stage_statuses "balance_reconciliation"
      && stage_passed stage_statuses "probe_order"
      && stage_passed stage_statuses "order_history_requery"
  broker_evidence_is_live_approved _ = false

  -- `list(v or []) != []`
  unfoldable pub is_listed : Value F → Result Raised Bool
  unfolding truthy
  is_listed (int n) = if truthy {F = F} (int n) then err type_error else ok false
  is_listed (float x) = if truthy (float x) then err type_error else ok false
  is_listed (bool b) = if b then err type_error else ok false
  is_listed v = ok (truthy v)

  -- The four blocks of `_live_approval_rejection` that look into a nested proof.
  unfoldable pub prelive_missing : Value F → Result Raised (List ProofItem)
  unfolding proof_status_is_pass is_listed
  prelive_missing v =
      if not (proof_status_is_pass v)
      then ok (prelive_gate ∷ [])
      else if not (is_dict v)
      then ok (prelive_gate_blockers ∷ [])
      else (do
        blocked ← is_listed (get "blockers" (fields_of v))
        ok (noted blocked prelive_gate_blockers))

  unfoldable pub deploy_missing : Value F → List ProofItem
  unfolding proof_status_is_pass
  deploy_missing v =
      if not (proof_status_is_pass v)
      then deploy_quality ∷ []
      else if not (is_dict v)
      then service_policy_gate_pass ∷ registry_mutated ∷ []
      else noted (not (safe_bool (get "service_policy_gate_pass" (fields_of v)) false))
          service_policy_gate_pass
        ++ noted (safe_bool (get "registry_mutated" (fields_of v)) true) registry_mutated

  unfoldable pub release_missing : Value F → Result Raised (List ProofItem)
  unfolding proof_status_is_pass is_listed
  release_missing v =
      if not (proof_status_is_pass v)
      then ok (sanitized_release ∷ [])
      else if not (is_dict v)
      then ok (sanitized_release_clean ∷ [])
      else (do
        forbidden ← is_listed (get "forbidden_entries" (fields_of v))
        secrets ← is_listed (get "secret_sources_in_zip" (fields_of v))
        ok (noted forbidden forbidden_entries ++ noted secrets secret_sources_in_zip))

  unfoldable pub evidence_missing : Fields F → List ProofItem
  unfolding broker_evidence_is_live_approved
  evidence_missing proof =
      let first = get "broker_evidence" proof in
      let evidence = if is_dict first then first else get "kis_broker_evidence" proof in
      noted (not (broker_evidence_is_live_approved evidence)) broker_evidence

  unfoldable pub version_missing : Fields F → List ProofItem
  version_missing proof =
      let registry = get "production_registry" proof in
      let version =
        if is_dict registry
        then strip (text_of (or_else (get "active_version" (fields_of registry)) (str "")))
        else "" in
      noted (not (nonempty version)) active_version

  unfoldable pub missing_approvals : Fields F → Result Raised (List ProofItem)
  missing_approvals proof = do
    prelive ← prelive_missing (get "prelive_gate" proof)
    release ← release_missing (get "sanitized_release" proof)
    ok (
        prelive
        ++ deploy_missing (get "deploy_quality" proof)
        ++ release
        ++ evidence_missing proof
        ++ version_missing proof
        ++ noted (not (safe_bool (get "live_trading_allowed" proof) false)) live_trading_allowed)

  -- `_live_approval_rejection`
  unfoldable pub live_approval_rejection : Gateway F → Result Raised (Option (Reason F))
  unfolding missing_approvals
  live_approval_rejection g = do
    absent ← missing_approvals g.live_approval_proof
    elim absent [ [] ↦ ok none | a ∷ as' ↦ ok (some (live_approval_missing (a ∷ as'))) ]
