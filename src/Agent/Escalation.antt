-- ===== src/Agent/Escalation.antt =====
-- When a message goes to a human.
use production_support_agent.Models.{RiskLevel, low, account_security, safety_agent}
use production_support_agent.Prelude.{
  ◌≤◌, ◌≡◌, refl, true, ◌||◌, List, [], ◌∷◌, arith, nat_eq, string_eq, le_trans, ◌++◌,
}
use production_support_agent.Agent.Routing.{
  IntentResult, PolicyFinding, RouteDecision, risk_order, max_risk_from, max_risk,
  allowed_tools_for, mapped_target, is_high_risk, is_angry, is_complaint, is_safety, route,
  raised_risk,
}

raised_risk_lem :
    (risk : RiskLevel) (finding : PolicyFinding)
    → (risk_order risk ≤ risk_order (raised_risk risk finding))
      × (risk_order finding.risk_level ≤ risk_order (raised_risk risk finding))
unfolding raised_risk
raised_risk_lem risk finding = (ground arith, ground arith)

max_risk_from_keeps :
    (findings : List PolicyFinding) (risk : RiskLevel)
    → risk_order risk ≤ risk_order (max_risk_from risk findings)
unfolding max_risk_from
max_risk_from_keeps [] risk = ground arith
max_risk_from_keeps (finding ∷ findings) risk =
    le_trans (raised_risk_lem risk finding).0
      (max_risk_from_keeps findings (raised_risk risk finding))

high_risk_above :
    (risk above : RiskLevel)
    → risk_order risk ≤ risk_order above
    → is_high_risk risk ≡ true
    → is_high_risk above ≡ true
unfolding risk_order is_high_risk
high_risk_above risk above h t = ground arith

-- The decision is the one for a policy risk: the safety agent, a human, and no tool that reads orders.
abbrev pub IsEscalated : RouteDecision → Type 0
IsEscalated decision =
    (decision.target ≡ safety_agent)
    × (decision.needs_human ≡ true)
    × (decision.allowed_tools ≡ allowed_tools_for account_security)

route-IsEscalated :
    (intent : IntentResult) (risk : RiskLevel)
    → is_high_risk risk ≡ true
    → IsEscalated (route intent risk)
unfolding route allowed_tools_for
route-IsEscalated intent risk t = rw t (refl, refl, refl)

max_risk_from_at :
    (before after : List PolicyFinding) (finding : PolicyFinding) (risk : RiskLevel)
    → risk_order finding.risk_level ≤ risk_order (max_risk_from risk (before ++ finding ∷ after))
unfolding max_risk_from
max_risk_from_at [] after finding risk =
    le_trans (raised_risk_lem risk finding).1 (max_risk_from_keeps after (raised_risk risk finding))
max_risk_from_at (first ∷ before) after finding risk =
    max_risk_from_at before after finding (raised_risk risk first)

-- A finding of high or critical risk anywhere among the findings of a message sends it to the safety
-- agent and to a human, with the tools of an account-security question only, whatever the intent and
-- the other findings are.
pub risky-IsEscalated :
    (intent : IntentResult) (before after : List PolicyFinding) (finding : PolicyFinding)
    → is_high_risk finding.risk_level ≡ true
    → IsEscalated (route intent (max_risk (before ++ finding ∷ after)))
unfolding max_risk
risky-IsEscalated intent before after finding t =
    route-IsEscalated intent (max_risk_from low (before ++ finding ∷ after)) (
      high_risk_above finding.risk_level (max_risk_from low (before ++ finding ∷ after))
        (max_risk_from_at before after finding low) t)

-- A route asks for a human exactly when the risk is high, the user is angry, or the intent is a
-- complaint or about the security of an account.
pub route_needs_human :
    (intent : IntentResult) (risk : RiskLevel)
    → (route intent risk).needs_human ≡ (
        is_high_risk risk
        || is_angry intent.sentiment
        || is_complaint intent.primary
        || is_safety (mapped_target intent.primary))
unfolding route
route_needs_human intent risk = ground arith
