-- ===== src/Agent/Examples.antt =====
-- The witnesses of the properties of routes and plans.
use production_support_agent.Models.{low, high, refund_or_return}
use production_support_agent.Prelude.{true, false, [], ◌∷◌, nat_eq, string_eq, refl, ◌++◌}
use production_support_agent.Agent.Routing.{
  IntentResult, PolicyFinding, calm, max_risk, is_high_risk, route,
}
use production_support_agent.Agent.Planning.{plan_for}
use production_support_agent.Agent.Allowed.{IsAllowed, plan-IsAllowed}
use production_support_agent.Agent.Escalation.{IsEscalated, risky-IsEscalated}

abbrev return_request : IntentResult
return_request = record {
  primary = refund_or_return;
  entities = ("order_id", "A1001") ∷ [];
  sentiment = calm;
}

abbrev injection : PolicyFinding
injection = record {
  code = "PROMPT_INJECTION_ATTEMPT";
  risk_level = high;
  message = "Prompt injection pattern detected.";
  should_block = false;
  should_escalate = true;
}

plan-IsAllowed_example :
    IsAllowed
      (route return_request low).allowed_tools
      (plan_for (route return_request low).target return_request "broken" "u1")
plan-IsAllowed_example = plan-IsAllowed return_request "broken" "u1" low

risky-IsEscalated_example : IsEscalated (route return_request (max_risk ([] ++ injection ∷ [])))
unfolding is_high_risk
risky-IsEscalated_example = risky-IsEscalated return_request [] [] injection refl
