-- ===== src/Monitor/Review.antt =====
-- monitoring/monitor.py, OnlineMonitorAgent.review and monitor_alert_key; check_input and check_output of
-- agent/policy.py, whose tests on the text are given.
use Prim.Native.Nat.{Ordering}
use Prim.Native.String.{compare}
use production_support_agent.Monitor.Triage.{is_critical_risk, is_just_high_risk}
use production_support_agent.Monitor.Events.{MonitorEvent}
use production_support_agent.Tools.Types.{ToolResult}
use production_support_agent.Agent.Routing.{PolicyFinding, intent_value}
use production_support_agent.Models.{IntentType, ToolStatus, RiskLevel, medium, high, critical, low}
use production_support_agent.Prelude.{
  ℕ, String, Bool, true, false, not, ◌&&◌, ◌||◌, Option, none, some, List, [], ◌∷◌, ◌++◌, map,
  if◌then◌else◌, ◌==◌, nat_eq, string_eq, select, join, any, is_blank, before, filled_or,
}

-- The literals of AgentRunTrace.status
pub data RunStatus : Type 0 where
  running completed failed : RunStatus

-- AgentRunTrace, less what the monitor does not read; of the route whether it needs a human, and of the
-- retrieval the selected context.
pub record RunTrace : Type 0 where
  pub id : String
  pub tenant_id : String
  pub conversation_id : String
  pub agent_version : String
  pub intent : Option IntentType
  pub needs_human : Option Bool
  pub selected_context : Option (List String)
  pub tool_results : List ToolResult
  pub policy_findings : List PolicyFinding
  pub created_at : ℕ
  pub completed_at : Option ℕ
  pub run_status : RunStatus

-- AgentResponse, as the monitor reads it; its trace has an intent.
pub record AgentResponse : Type 0 where
  pub trace : RunTrace
  pub primary : IntentType
  pub citations : List String
  pub handoff_required : Bool

-- `bool(xs)`
abbrev pub has_any {ℓ} : {A : Type ℓ} → List A → Bool
has_any [] = false
has_any (x ∷ xs) = true

abbrev pub is_policy_failure : PolicyFinding → Bool
is_policy_failure f = f.should_block || f.should_escalate

abbrev status_failed : ToolStatus → Bool
status_failed ToolStatus.success = false
status_failed ToolStatus.failed = true
status_failed ToolStatus.skipped = false

abbrev pub is_tool_failure : ToolResult → Bool
is_tool_failure t = status_failed t.status

-- `primary.value in {"complaint", "account_security"}`
unfoldable pub needs_no_source : IntentType → Bool
needs_no_source primary =
    intent_value primary == "complaint" || intent_value primary == "account_security"

unfoldable pub needs_review : AgentResponse → Bool
needs_review r =
    has_any (select is_policy_failure r.trace.policy_findings)
    || has_any (select is_tool_failure r.trace.tool_results)
    || r.handoff_required

-- `risk` of a review
unfoldable pub review_risk : AgentResponse → RiskLevel
review_risk r =
    if any (λ f. is_critical_risk f.risk_level) r.trace.policy_findings
    then critical
    else if any (λ f. is_just_high_risk f.risk_level) r.trace.policy_findings
    then high
    else if needs_review r
    then medium
    else low

unfoldable pub failure_types_of : AgentResponse → List String
failure_types_of r =
    map (λ f. f.code) (select is_policy_failure r.trace.policy_findings)
    ++ map (λ t. filled_or t.error_code "TOOL_FAILED") (select is_tool_failure r.trace.tool_results)

-- `sorted` of texts, by their characters' numbers
insert_text : String → List String → List String
insert_text s [] = s ∷ []
insert_text s (t ∷ ts) =
    let rest = insert_text s ts in elim (compare s t) [ Ordering.gt ↦ t ∷ rest | _ ↦ s ∷ t ∷ ts ]

unfoldable pub sorted_texts : List String → List String
unfolding insert_text
sorted_texts [] = []
sorted_texts (s ∷ ts) = insert_text s (sorted_texts ts)

-- `"+".join(sorted(failure_types)) or "QUALITY_REVIEW"`
unfoldable pub failure_key : List String → String
failure_key failures =
    let key = join "+" (sorted_texts failures) in if is_blank key then "QUALITY_REVIEW" else key

unfoldable pub monitor_alert_key : MonitorEvent → String
monitor_alert_key event = before event.agent_version (
    before ":"
      (before (intent_value event.user_intent) (before ":" (failure_key event.failure_types))))

-- The condition of an alert key.
unfoldable pub is_alerted : MonitorEvent → Bool
is_alerted event =
    has_any event.failure_types
    || not event.grounded
    || not event.policy_compliant
    || event.needs_human_review

-- The event of a review before its key, with a new identifier, at a time and with its summary.
unfoldable pub unkeyed_review : AgentResponse → String → ℕ → String → MonitorEvent
unkeyed_review r id now summary = record {
  id = id;
  conversation_id = r.trace.conversation_id;
  run_id = r.trace.id;
  timestamp = now;
  agent_version = r.trace.agent_version;
  user_intent = r.primary;
  alert_key = none;
  risk_level = review_risk r;
  grounded = has_any r.citations || needs_no_source r.primary;
  policy_compliant = not (has_any (select is_policy_failure r.trace.policy_findings));
  pii_leak = any (λ (f : PolicyFinding). f.code == "PII_IN_OUTPUT") r.trace.policy_findings;
  needs_human_review = needs_review r;
  failure_types = failure_types_of r;
  summary = summary;
}

-- review
unfoldable pub review : AgentResponse → String → ℕ → String → MonitorEvent
review r id now summary =
    let event = unkeyed_review r id now summary in
    if is_alerted event then record event { alert_key = some (monitor_alert_key event) } else event

abbrev pub policy_finding : String → RiskLevel → Bool → PolicyFinding
policy_finding code risk escalate = record {
  code = code;
  risk_level = risk;
  message = "";
  should_block = false;
  should_escalate = escalate;
}

abbrev pub found_if : Bool → PolicyFinding → List PolicyFinding
found_if true f = f ∷ []
found_if false f = []

-- check_input, by what its two tests of the text say; messages are left out
unfoldable pub check_input : Bool → Bool → List PolicyFinding
check_input has_pii has_injection =
    found_if has_pii (policy_finding "PII_IN_INPUT" medium false)
    ++ found_if has_injection (policy_finding "PROMPT_INJECTION_ATTEMPT" high true)

-- check_output, by what its three tests of the text say
unfoldable pub check_output : Bool → Bool → Bool → Bool → List PolicyFinding
check_output has_promise has_pii high_risk mentions_human =
    found_if has_promise (policy_finding "UNSUPPORTED_COMPENSATION_PROMISE" high true)
    ++ found_if has_pii (policy_finding "PII_IN_OUTPUT" critical true)
    ++ found_if (high_risk && not mentions_human)
        (policy_finding "HIGH_RISK_WITHOUT_HANDOFF" medium false)
