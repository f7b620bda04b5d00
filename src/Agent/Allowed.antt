-- ===== src/Agent/Allowed.antt =====
-- The tools that a plan asks for are tools that the route allows.
use production_support_agent.Models.{
  RiskLevel, IntentType, order_status, refund_or_return, billing, technical_issue, complaint,
  account_security, general_question, unknown,
}
use production_support_agent.Prelude.{
  String, ◌≡◌, refl, inl, inr, true, ◌||◌, Option, none, some, List, nat_eq, string_eq, Bool-cases,
  All, contains,
}
use production_support_agent.Agent.Routing.{
  IntentResult, allowed_tools_for, mapped_target, is_high_risk, is_angry, is_complaint, route,
}
use production_support_agent.Agent.Planning.{
  AgentPlan, plan_for, order_plan, billing_plan, tech_plan, retention_plan, safety_plan,
  general_plan, order_requests, billing_requests, order_id_of, is_refund,
}

-- Every tool of the plan is allowed by the decision.
abbrev pub IsAllowed : List String → AgentPlan → Type 0
IsAllowed tools plan = All (λ request. contains tools request.name ≡ true) plan.tool_requests

module _ (intent : IntentResult) (user_text user_id : String) where
  order_requests-IsAllowed :
      (refund : IntentType) (order_id : Option String)
      → All
          (λ request. contains (allowed_tools_for refund_or_return) request.name ≡ true)
          (order_requests refund user_text order_id)
  unfolding contains allowed_tools_for
  order_requests-IsAllowed primary none = (refl, tt)
  order_requests-IsAllowed primary (some order_id) = elim (Bool-cases (is_refund primary)) [
    | inl t ↦ rw t (refl, (refl, tt))
    | inr f ↦ rw f (refl, tt)
  ]

  billing_requests-IsAllowed :
      (order_id : Option String)
      → All
          (λ request. contains (allowed_tools_for billing) request.name ≡ true)
          (billing_requests order_id)
  unfolding contains allowed_tools_for
  billing_requests-IsAllowed none = tt
  billing_requests-IsAllowed (some order_id) = (refl, tt)

  retention-IsAllowed :
      (primary : IntentType)
      → IsAllowed (allowed_tools_for primary) (retention_plan user_text user_id)
  unfolding contains allowed_tools_for retention_plan
  retention-IsAllowed order_status = (refl, (refl, tt))
  retention-IsAllowed refund_or_return = (refl, (refl, tt))
  retention-IsAllowed billing = (refl, (refl, tt))
  retention-IsAllowed technical_issue = (refl, (refl, tt))
  retention-IsAllowed complaint = (refl, (refl, tt))
  retention-IsAllowed account_security = (refl, (refl, tt))
  retention-IsAllowed general_question = (refl, (refl, tt))
  retention-IsAllowed unknown = (refl, (refl, tt))

  mapped-IsAllowed :
      (primary : IntentType)
      → IsAllowed
          (allowed_tools_for primary)
          (plan_for (mapped_target primary) intent user_text user_id)
  unfolding contains allowed_tools_for plan_for mapped_target order_plan billing_plan tech_plan
      safety_plan general_plan
  mapped-IsAllowed order_status =
      (refl, order_requests-IsAllowed intent.primary (order_id_of intent))
  mapped-IsAllowed refund_or_return =
      (refl, order_requests-IsAllowed intent.primary (order_id_of intent))
  mapped-IsAllowed billing = (refl, billing_requests-IsAllowed (order_id_of intent))
  mapped-IsAllowed technical_issue = (refl, tt)
  mapped-IsAllowed complaint = (refl, tt)
  mapped-IsAllowed account_security = (refl, tt)
  mapped-IsAllowed general_question = (refl, tt)
  mapped-IsAllowed unknown = (refl, tt)

  -- Whatever the intent, its entities and the policy risk are, the plan of the agent that the
  -- message is routed to asks only for tools that the route allows.
  pub plan-IsAllowed :
      (policy_risk : RiskLevel)
      → let decision = route intent policy_risk in
        IsAllowed decision.allowed_tools (plan_for decision.target intent user_text user_id)
  unfolding route contains plan_for safety_plan
  plan-IsAllowed policy_risk = elim (Bool-cases (is_high_risk policy_risk)) [
    | inl t ↦ rw t (refl, tt)
    | inr f ↦ elim (Bool-cases (is_angry intent.sentiment || is_complaint intent.primary)) [
      | inl t ↦ rw (f, t) (retention-IsAllowed intent.primary)
      | inr g ↦ rw (f, g) (mapped-IsAllowed intent.primary)
    ]
  ]
