-- ===== src/Agent/Routing.antt =====
-- agent/router.py, the tools of agent/policy.py, and the risk of the orchestrator. The detection of the
-- intent and of policy findings works on regular expressions and is the environment's.
use production_support_agent.Models.{
  RiskLevel, IntentType, RouteTarget, low, medium, high, critical, order_status, refund_or_return,
  billing, technical_issue, complaint, account_security, general_question, unknown, order_agent,
  billing_agent, tech_agent, retention_agent, safety_agent, general_agent, human,
}
use production_support_agent.Prelude.{
  ℕ, String, str_append, Bool, true, false, ◌||◌, List, [], ◌∷◌, ◌++◌, ltb, if◌then◌else◌, nat_eq,
  string_eq,
}

-- The value of an IntentType and of a RouteTarget.
unfoldable pub intent_value : IntentType → String
intent_value order_status = "order_status"
intent_value refund_or_return = "refund_or_return"
intent_value billing = "billing"
intent_value technical_issue = "technical_issue"
intent_value complaint = "complaint"
intent_value account_security = "account_security"
intent_value general_question = "general_question"
intent_value unknown = "unknown"

unfoldable pub target_value : RouteTarget → String
target_value order_agent = "order_agent"
target_value billing_agent = "billing_agent"
target_value tech_agent = "tech_agent"
target_value retention_agent = "retention_agent"
target_value safety_agent = "safety_agent"
target_value general_agent = "general_agent"
target_value human = "human"

-- The literals of IntentResult.sentiment
pub data Sentiment : Type 0 where
  calm confused frustrated angry : Sentiment

-- IntentResult, less what neither the router nor an agent reads.
pub record IntentResult : Type 0 where
  pub primary : IntentType
  pub entities : List (String × String)
  pub sentiment : Sentiment

-- PolicyFinding
pub record PolicyFinding : Type 0 where
  pub code : String
  pub risk_level : RiskLevel
  pub message : String
  pub should_block : Bool
  pub should_escalate : Bool

-- RouteDecision
pub record RouteDecision : Type 0 where
  pub target : RouteTarget
  pub reason : String
  pub allowed_tools : List String
  pub needs_human : Bool

-- `order` of _max_risk
unfoldable pub risk_order : RiskLevel → ℕ
risk_order low = 0
risk_order medium = 1
risk_order high = 2
risk_order critical = 3

-- The body of the loop of _max_risk.
unfoldable pub raised_risk : RiskLevel → PolicyFinding → RiskLevel
raised_risk risk finding =
    if ltb (risk_order risk) (risk_order finding.risk_level) then finding.risk_level else risk

-- The loop of _max_risk, and _max_risk.
unfoldable pub max_risk_from : RiskLevel → List PolicyFinding → RiskLevel
max_risk_from risk [] = risk
max_risk_from risk (finding ∷ findings) = max_risk_from (raised_risk risk finding) findings

unfoldable pub max_risk : List PolicyFinding → RiskLevel
max_risk findings = max_risk_from low findings

-- The `base` of PolicyEngine.allowed_tools_for
abbrev pub base_tools : List String
base_tools = "crm.get_customer" ∷ "kb.search" ∷ "ticket.create" ∷ []

-- PolicyEngine.allowed_tools_for
unfoldable pub allowed_tools_for : IntentType → List String
allowed_tools_for refund_or_return =
    base_tools ++ "order.search" ∷ "order.get" ∷ "shipping.track" ∷ []
allowed_tools_for order_status = base_tools ++ "order.search" ∷ "order.get" ∷ "shipping.track" ∷ []
allowed_tools_for billing = base_tools ++ "order.search" ∷ "order.get" ∷ "shipping.track" ∷ []
allowed_tools_for technical_issue = base_tools ++ "order.search" ∷ "order.get" ∷ []
allowed_tools_for account_security = "crm.get_customer" ∷ "ticket.create" ∷ "kb.search" ∷ []
allowed_tools_for complaint = base_tools
allowed_tools_for general_question = base_tools
allowed_tools_for unknown = base_tools

-- The `mapping` of AgentRouter.route
unfoldable pub mapped_target : IntentType → RouteTarget
mapped_target refund_or_return = order_agent
mapped_target order_status = order_agent
mapped_target billing = billing_agent
mapped_target technical_issue = tech_agent
mapped_target account_security = safety_agent
mapped_target general_question = general_agent
mapped_target unknown = general_agent
mapped_target complaint = general_agent

-- `policy_risk in {RiskLevel.high, RiskLevel.critical}`
unfoldable pub is_high_risk : RiskLevel → Bool
is_high_risk low = false
is_high_risk medium = false
is_high_risk high = true
is_high_risk critical = true

unfoldable pub is_angry : Sentiment → Bool
is_angry calm = false
is_angry confused = false
is_angry frustrated = false
is_angry angry = true

unfoldable pub is_complaint : IntentType → Bool
is_complaint order_status = false
is_complaint refund_or_return = false
is_complaint billing = false
is_complaint technical_issue = false
is_complaint complaint = true
is_complaint account_security = false
is_complaint general_question = false
is_complaint unknown = false

-- `target == RouteTarget.safety_agent`
unfoldable pub is_safety : RouteTarget → Bool
is_safety order_agent = false
is_safety billing_agent = false
is_safety tech_agent = false
is_safety retention_agent = false
is_safety safety_agent = true
is_safety general_agent = false
is_safety human = false

-- The decision for a risk that is not high and an intent that needs no retention.
abbrev pub mapped_route : IntentType → RouteDecision
mapped_route primary =
    let target = mapped_target primary in
    record {
      target = target;
      reason = str_append "Intent " (
          str_append (intent_value primary)
            (str_append " mapped to " (str_append (target_value target) ".")));
      allowed_tools = allowed_tools_for primary;
      needs_human = is_safety target;
    }

-- AgentRouter.route
unfoldable pub route : IntentResult → RiskLevel → RouteDecision
route intent policy_risk =
    if is_high_risk policy_risk
    then record {
      target = safety_agent;
      reason = "High policy risk; route to safety/handoff path.";
      allowed_tools = "crm.get_customer" ∷ "ticket.create" ∷ "kb.search" ∷ [];
      needs_human = true;
    }
    else if is_angry intent.sentiment || is_complaint intent.primary
    then record {
      target = retention_agent;
      reason = "Complaint or angry sentiment needs retention/human-aware handling.";
      allowed_tools = allowed_tools_for intent.primary;
      needs_human = true;
    }
    else mapped_route intent.primary
