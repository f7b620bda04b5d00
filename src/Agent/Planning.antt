-- ===== src/Agent/Planning.antt =====
-- agent/agents.py: the plan of each agent, and the agent that the orchestrator picks for a route.
use production_support_agent.Agent.Routing.{IntentResult}
use production_support_agent.Models.{
  IntentType, RouteTarget, order_status, refund_or_return, billing, technical_issue, complaint,
  account_security, general_question, unknown, order_agent, billing_agent, tech_agent,
  retention_agent, safety_agent, general_agent, human,
}
use production_support_agent.Prelude.{
  String, str_append, Bool, true, false, Option, none, some, List, [], ◌∷◌, if◌then◌else◌, ◌==◌,
  nat_eq, string_eq, get_key,
}

-- The values of the arguments of a request.
pub data Argument : Type 0 where
  text : String → Argument
  texts : List String → Argument

-- ToolRequest, whose other fields no agent sets.
pub record ToolRequest : Type 0 where
  pub name : String
  pub arguments : List (String × Argument)
  pub reason : String

-- AgentPlan, less the clarification question, which no agent asks.
pub record AgentPlan : Type 0 where
  pub target_agent : RouteTarget
  pub tool_requests : List ToolRequest
  pub retrieval_query : String
  pub handoff_reason : Option String
  pub response_goal : String

abbrev pub get_customer : String → ToolRequest
get_customer user_id = record {
  name = "crm.get_customer";
  arguments = ("user_id", text user_id) ∷ [];
  reason = "Identify customer";
}

abbrev pub get_order : String → String → ToolRequest
get_order order_id reason = record {
  name = "order.get";
  arguments = ("order_id", text order_id) ∷ [];
  reason = reason;
}

abbrev pub create_ticket : String → String → String → List String → String → ToolRequest
create_ticket title description priority tags reason = record {
  name = "ticket.create";
  arguments =
      ("customer_id", text "SELF")
      ∷ ("title", text title)
      ∷ ("description", text description)
      ∷ ("priority", text priority)
      ∷ ("tags", texts tags)
      ∷ [];
  reason = reason;
}

-- `a or b` on texts that may be absent or empty
unfoldable pub or_text : Option String → Option String → Option String
or_text none other = other
or_text (some value) other = if value == "" then other else some value

-- `intent.entities.get("order_id") or intent.entities.get("last_order_id")`, as a truth value: an
-- empty id is none.
unfoldable pub order_id_of : IntentResult → Option String
order_id_of intent =
    or_text (get_key intent.entities "order_id")
      (or_text (get_key intent.entities "last_order_id") none)

unfoldable pub is_refund : IntentType → Bool
is_refund order_status = false
is_refund refund_or_return = true
is_refund billing = false
is_refund technical_issue = false
is_refund complaint = false
is_refund account_security = false
is_refund general_question = false
is_refund unknown = false

-- The requests of OrderAgent after the customer.
abbrev pub order_requests : IntentType → String → Option String → List ToolRequest
order_requests primary user_text (some order_id) =
    get_order order_id "Fetch referenced order"
    ∷ (if is_refund primary
        then create_ticket (str_append "After-sales review for order " order_id) user_text "normal"
            ("return_or_refund" ∷ "quality_issue" ∷ [])
            "Create after-sales ticket instead of directly refunding money"
          ∷ []
        else [])
order_requests primary user_text none =
    record {
      name = "order.search";
      arguments = ("customer_id", text "SELF") ∷ [];
      reason = "Find candidate orders when user omitted order id";
    }
    ∷ []

abbrev pub billing_requests : Option String → List ToolRequest
billing_requests (some order_id) = get_order order_id "Fetch billing order" ∷ []
billing_requests none = []

-- DomainAgent.plan of the six agents
unfoldable pub order_plan : IntentResult → String → String → AgentPlan
order_plan intent user_text user_id = record {
  target_agent = order_agent;
  tool_requests =
      get_customer user_id ∷ order_requests intent.primary user_text (order_id_of intent);
  retrieval_query = if is_refund intent.primary then "退换货政策 质量问题 30 天" else "物流政策 延迟 查询";
  handoff_reason = none;
  response_goal = "Resolve order, return, refund, or shipping question with source-backed policy.";
}

unfoldable pub billing_plan : IntentResult → String → String → AgentPlan
billing_plan intent user_text user_id = record {
  target_agent = billing_agent;
  tool_requests = get_customer user_id ∷ billing_requests (order_id_of intent);
  retrieval_query = "发票 账单 税号 抬头";
  handoff_reason = none;
  response_goal = "Answer invoice or billing question and create a ticket if data must be changed.";
}

unfoldable pub tech_plan : String → String → AgentPlan
tech_plan user_text user_id = record {
  target_agent = tech_agent;
  tool_requests = get_customer user_id ∷ [];
  retrieval_query = str_append user_text " 故障 排查";
  handoff_reason = none;
  response_goal = "Give safe troubleshooting steps and connect to after-sales flow when needed.";
}

unfoldable pub retention_plan : String → String → AgentPlan
retention_plan user_text user_id = record {
  target_agent = retention_agent;
  tool_requests =
      get_customer user_id
      ∷ create_ticket "Customer complaint requires review" user_text "high"
          ("complaint" ∷ "handoff" ∷ []) "Create human follow-up ticket for complaint"
      ∷ [];
  retrieval_query = "客服 投诉 升级 人工";
  handoff_reason = some "Complaint or angry sentiment needs human follow-up.";
  response_goal = "Acknowledge frustration, avoid arguing, and hand off with context.";
}

unfoldable pub safety_plan : String → AgentPlan
safety_plan user_text = record {
  target_agent = safety_agent;
  tool_requests =
      create_ticket "Security or policy-sensitive conversation" user_text "urgent"
        ("security" ∷ "policy_review" ∷ []) "Create a security review ticket"
      ∷ [];
  retrieval_query = "账号安全 隐私 人工升级";
  handoff_reason = some "Security, privacy, or prompt-injection risk.";
  response_goal = "Limit disclosure and route to a verified human process.";
}

unfoldable pub general_plan : String → String → AgentPlan
general_plan user_text user_id = record {
  target_agent = general_agent;
  tool_requests = get_customer user_id ∷ [];
  retrieval_query = user_text;
  handoff_reason = none;
  response_goal = "Answer with knowledge-base grounding or ask a concise clarifying question.";
}

-- `AGENTS.get(route.target, AGENTS[RouteTarget.general_agent]).plan(...)`
unfoldable pub plan_for : RouteTarget → IntentResult → String → String → AgentPlan
plan_for order_agent intent user_text user_id = order_plan intent user_text user_id
plan_for billing_agent intent user_text user_id = billing_plan intent user_text user_id
plan_for tech_agent intent user_text user_id = tech_plan user_text user_id
plan_for retention_agent intent user_text user_id = retention_plan user_text user_id
plan_for safety_agent intent user_text user_id = safety_plan user_text
plan_for general_agent intent user_text user_id = general_plan user_text user_id
plan_for human intent user_text user_id = general_plan user_text user_id
