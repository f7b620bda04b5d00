-- ===== src/Monitor/Alerted.antt =====
-- OnlineMonitorAgent.review of monitoring/monitor.py gives an alert key to what _severity_for ranks.
use production_support_agent.Monitor.Events.{MonitorEvent}
use production_support_agent.Models.{RiskLevel, critical, high, medium, low, Severity}
use production_support_agent.Monitor.Triage.{
  is_critical_risk, is_just_high_risk, severity_for, is_p0, is_p1, is_p2,
}
use production_support_agent.Monitor.Review.{
  failure_types_of, has_any, AgentResponse, is_policy_failure, is_tool_failure, unkeyed_review,
  review, is_alerted, needs_review, review_risk, needs_no_source, found_if, check_input,
  check_output, policy_finding,
}
use production_support_agent.Agent.Routing.{PolicyFinding}
use production_support_agent.Models.{p0, p1, p2, p3, medium, high, critical}
use production_support_agent.Prelude.{
  ℕ, String, ◌≡◌, refl, sym, ◌∙◌, subst, inl, inr, Bool, true, false, not, ◌&&◌, ◌||◌, false≢true,
  List, [], ◌∷◌, ◌++◌, map, arith, if◌then◌else◌, ◌==◌, nat_eq, string_eq, Bool-cases, is_some, All,
  any, select, All-append,
}

-- A finding of high or critical risk, or of personal data in the answer, blocks or escalates.
abbrev pub IsActionable : PolicyFinding → Type 0
IsActionable f =
    (is_critical_risk f.risk_level || is_just_high_risk f.risk_level || f.code == "PII_IN_OUTPUT")
      ≡ true
    → is_policy_failure f ≡ true

abbrev is_grave : PolicyFinding → Bool
is_grave f =
    is_critical_risk f.risk_level || is_just_high_risk f.risk_level || f.code == "PII_IN_OUTPUT"

any-has_any :
    (p : PolicyFinding → Bool) (xs : List PolicyFinding)
    → ((f : PolicyFinding) → p f ≡ true → is_grave f ≡ true)
    → All IsActionable xs
    → any p xs ≡ true
    → has_any (select is_policy_failure xs) ≡ true
unfolding any select
any-has_any p [] grave h e = e
any-has_any p (f ∷ xs) grave h e = elim (Bool-cases (is_policy_failure f)) [
  | inl t ↦ rw t refl
  | inr t ↦ rw t (
      any-has_any p xs grave h.1 (elim (Bool-cases (p f)) [
        | inl own ↦ absurd (ground (arith, h.0 (grave f own), t))
        | inr other ↦ ground (arith, other, e)
      ]))
]

has_any-map {ℓ} : {A : Type ℓ} (g : A → String) (xs : List A) → has_any (map g xs) ≡ has_any xs
has_any-map g [] = refl
has_any-map g (x ∷ xs) = refl

has_any-append : (xs ys : List String) → has_any (xs ++ ys) ≡ (has_any xs || has_any ys)
has_any-append [] ys = refl
has_any-append (x ∷ xs) ys = refl

failures-has_any :
    (r : AgentResponse)
    → has_any (failure_types_of r) ≡ (
        has_any (select is_policy_failure r.trace.policy_findings)
        || has_any (select is_tool_failure r.trace.tool_results))
unfolding failure_types_of
failures-has_any r =
    has_any-append (map (λ f. f.code) (select is_policy_failure r.trace.policy_findings)) _
    ∙ rw (has_any-map, has_any-map) refl

-- What the tests of a review say, one by one.
tests-agree :
    (c g pii p t h grounded : Bool)
    → (c ≡ true → p ≡ true)
    → (g ≡ true → p ≡ true)
    → (pii ≡ true → p ≡ true)
    → let risk : RiskLevel =
        if c then critical else if g then high else if p || t || h then medium else low in
      ((pii
          || is_critical_risk risk
          || (is_just_high_risk risk || not (not p))
          || (p || t || h || not grounded))
        ≡ ((p || t) || not grounded || not (not p) || (p || t || h)))
unfolding is_critical_risk is_just_high_risk
tests-agree c g pii p t h grounded hc hg hp = ground (arith, hc, hg, hp)

-- A severity above the lowest.
abbrev pub is_ranked : Severity → Bool
is_ranked p0 = true
is_ranked p1 = true
is_ranked p2 = true
is_ranked p3 = false

ranked_one :
    (e : MonitorEvent) → is_ranked (severity_for (e ∷ [])) ≡ (is_p0 e || is_p1 e || is_p2 e)
unfolding severity_for any
ranked_one e = elim (Bool-cases (is_p0 e)) [
  | inl t ↦ rw t refl
  | inr t ↦ rw t (elim (Bool-cases (is_p1 e)) [
    | inl u ↦ rw u refl
    | inr u ↦ rw u (elim (Bool-cases (is_p2 e)) [ inl v ↦ rw v refl | inr v ↦ rw v refl ])
  ])
]

found_if-IsActionable :
    (b : Bool) (f : PolicyFinding) → IsActionable f → All IsActionable (found_if b f)
found_if-IsActionable true f h = (h, tt)
found_if-IsActionable false f h = tt

-- The findings of the policy are so.
policy-IsActionable :
    (in_pii injection promise out_pii high_risk human : Bool)
    → All IsActionable
        (check_input in_pii injection ++ check_output promise out_pii high_risk human)
unfolding check_input check_output is_critical_risk is_just_high_risk
policy-IsActionable in_pii injection promise out_pii high_risk human =
    let pii = found_if in_pii (policy_finding "PII_IN_INPUT" medium false) in
    let injected = found_if injection (policy_finding "PROMPT_INJECTION_ATTEMPT" high true) in
    let promised = found_if promise (policy_finding "UNSUPPORTED_COMPENSATION_PROMISE" high true) in
    let leaked = found_if out_pii (policy_finding "PII_IN_OUTPUT" critical true) in
    let lonely =
      found_if (high_risk && not human) (policy_finding "HIGH_RISK_WITHOUT_HANDOFF" medium false) in
    All-append IsActionable (pii ++ injected) (promised ++ leaked ++ lonely)
      (All-append IsActionable pii injected
        (found_if-IsActionable in_pii _ (λ e. absurd (false≢true e)))
        (found_if-IsActionable injection _ (λ e. refl)))
      (All-append IsActionable (promised ++ leaked) lonely
        (All-append IsActionable promised leaked (found_if-IsActionable promise _ (λ e. refl))
          (found_if-IsActionable out_pii _ (λ e. refl)))
        (found_if-IsActionable (high_risk && not human) _ (λ e. absurd (false≢true e))))

module _ (r : AgentResponse) (id : String) (now : ℕ) (summary : String) where
  unkeyed-ranked :
      All IsActionable r.trace.policy_findings
      → is_ranked (severity_for (unkeyed_review r id now summary ∷ []))
        ≡ is_alerted (unkeyed_review r id now summary)
  unfolding unkeyed_review is_alerted needs_review review_risk
  unkeyed-ranked h =
      let findings = r.trace.policy_findings in
      ranked_one (unkeyed_review r id now summary)
      ∙ tests-agree (any (λ f. is_critical_risk f.risk_level) findings)
          (any (λ f. is_just_high_risk f.risk_level) findings)
          (any (λ (f : PolicyFinding). f.code == "PII_IN_OUTPUT") findings)
          (has_any (select is_policy_failure findings))
          (has_any (select is_tool_failure r.trace.tool_results)) r.handoff_required
          (has_any r.citations || needs_no_source r.primary)
          (any-has_any (λ f. is_critical_risk f.risk_level) findings (λ f e. rw e refl) h)
          (any-has_any (λ f. is_just_high_risk f.risk_level) findings (λ f e. ground (arith, e)) h)
          (any-has_any (λ (f : PolicyFinding). f.code == "PII_IN_OUTPUT") findings
            (λ f e. ground (arith, e)) h)
      ∙ rw (failures-has_any r) refl

  -- A key is given to what is ranked.
  review-alerts :
      All IsActionable r.trace.policy_findings
      → is_some (review r id now summary).alert_key
        ≡ is_ranked (severity_for (review r id now summary ∷ []))
  unfolding review unkeyed_review severity_for any
  review-alerts h = elim (Bool-cases (is_alerted (unkeyed_review r id now summary))) [
    | inl t ↦ rw t (sym (unkeyed-ranked h ∙ t))
    | inr t ↦ rw t (sym (unkeyed-ranked h ∙ t))
  ]

  -- When the findings of a run are those of check_input and check_output, whatever their tests of the
  -- texts say, the event of its review has an alert key exactly when the severity of that event alone
  -- is above the lowest, P3.
  pub review_alerts_policy :
      (in_pii injection promise out_pii high_risk human : Bool)
      → r.trace.policy_findings
        ≡ check_input in_pii injection ++ check_output promise out_pii high_risk human
      → is_some (review r id now summary).alert_key
        ≡ is_ranked (severity_for (review r id now summary ∷ []))
  review_alerts_policy in_pii injection promise out_pii high_risk human e = review-alerts (
      subst (All IsActionable) (sym e)
        (policy-IsActionable in_pii injection promise out_pii high_risk human))
