-- ===== src/Monitor/ReviewExamples.antt =====
-- The witnesses and tests of the reviews of runs, and of the worker that makes them.
use production_support_agent.Monitor.Summary.{
  summarize_alerts, group_events, is_healthy, add_to_group, sort_alerts, insert_alert, build_alert,
}
use production_support_agent.Monitor.Summarized.{total_count, summarize-total_count}
use production_support_agent.Monitor.Events.{MonitorEvent, MonitorAlert}
use production_support_agent.Monitor.Reviewed.{cycle-counts}
use production_support_agent.Monitor.Triage.{severity_for}
use production_support_agent.Monitor.Complete.{HasReview, cycle-HasReview}
use production_support_agent.Monitor.Alerted.{is_ranked, review_alerts_policy}
use production_support_agent.Monitor.Worker.{
  ReviewRow, ReviewTurn, review_missing_monitor_events, reviewable, list_unreviewed_agent_runs,
  review_loop, with_status, is_unreviewed, append_monitor_event_if_absent, is_review_of, review_of,
  response_from_trace,
}
use production_support_agent.Agent.Routing.{PolicyFinding}
use production_support_agent.Models.{order_status}
use production_support_agent.Monitor.Review.{
  check_input, RunTrace, AgentResponse, review, check_output, unkeyed_review, is_alerted,
  monitor_alert_key, failure_key, failure_types_of, sorted_texts, completed,
}
use production_support_agent.Prelude.{
  ℕ, ◌≡◌, refl, true, false, none, some, [], ◌∷◌, List, String, Option, Bool, nat_eq, string_eq,
  All, length, is_some, ◌++◌, not, ◌==◌, ◌+◌, if◌then◌else◌, select, map,
}

abbrev injected : List PolicyFinding
injected = check_input false true ++ check_output false false false false

abbrev completed_run : String → ℕ → RunTrace
completed_run id at = record {
  id = id;
  tenant_id = "t";
  conversation_id = "c";
  agent_version = "v";
  intent = some order_status;
  needs_human = none;
  selected_context = none;
  tool_results = [];
  policy_findings = injected;
  created_at = at;
  completed_at = none;
  run_status = completed;
}

abbrev run_row : String → ℕ → ReviewRow
run_row id at = record {
  tenant_id = "t";
  run_id = some id;
  event_type = "agent.run.completed";
  row_created_at = at;
  trace = some (completed_run id at);
  review = none;
}

abbrev run_rows : List ReviewRow
run_rows = run_row "r2" 20 ∷ run_row "r1" 10 ∷ []

abbrev calm_turn : ReviewTurn
calm_turn = record { raises = none; others = []; new_id = "mon_1"; summary = ""; now = 30 }

-- The review of the newer run raises.
abbrev turns : RunTrace → ReviewTurn
turns trace =
    if trace.id == "r2" then record calm_turn { raises = some "RuntimeError" } else calm_turn

abbrev answer : AgentResponse
answer = record {
  trace = completed_run "r1" 10;
  primary = order_status;
  citations = [];
  handoff_required = false;
}

review_alerts_policy_example :
    is_some (review answer "mon_1" 30 "").alert_key
    ≡ is_ranked (severity_for (review answer "mon_1" 30 "" ∷ []))
review_alerts_policy_example =
    review_alerts_policy answer "mon_1" 30 "" false true false false false false refl

cycle-counts_example :
    let report = (review_missing_monitor_events "t" turns run_rows none none 10).0 in
    (report.inspected_count ≡ length (list_unreviewed_agent_runs run_rows "t" none none 10))
    × (report.reviewed_count + report.skipped_existing_count + report.skipped_unreviewable_count
          + report.failed_count
        ≡ report.inspected_count)
    × ((report.cycle_status == "partial_failure") ≡ not (report.failed_count == 0))
cycle-counts_example = cycle-counts "t" turns run_rows none none 10

cycle-HasReview_example :
    All
      (λ trace.
        is_some (reviewable trace) ≡ true
        → (turns trace).raises ≡ none
        → HasReview "t" turns
            (review_missing_monitor_events "t" turns run_rows none none 10).1
            trace)
      (list_unreviewed_agent_runs run_rows "t" none none 10)
cycle-HasReview_example = cycle-HasReview "t" turns run_rows none none 10

-- The older run is reviewed, the newer one fails.
cycle_test :
    let report = (review_missing_monitor_events "t" turns run_rows none none 10).0 in
    (report.inspected_count ≡ 2)
    × (report.reviewed_count ≡ 1)
    × (report.failed_count ≡ 1)
    × (report.cycle_status ≡ "partial_failure")
unfolding review_missing_monitor_events list_unreviewed_agent_runs review_loop with_status
    is_unreviewed reviewable append_monitor_event_if_absent is_review_of review_of review
    unkeyed_review response_from_trace sorted_texts production_support_agent.Prelude.sort_by
    production_support_agent.Prelude.select production_support_agent.Prelude.find is_alerted
    failure_types_of check_input
cycle_test = (refl, refl, refl, refl)

-- An attempt at injection is alerted under its own key.
key_test : (review answer "mon_1" 30 "").alert_key ≡ some "v:order_status:PROMPT_INJECTION_ATTEMPT"
unfolding review unkeyed_review is_alerted monitor_alert_key failure_key failure_types_of
    sorted_texts check_input check_output production_support_agent.Prelude.select
    production_support_agent.Prelude.join production_support_agent.Agent.Routing.intent_value
key_test = refl

-- Two reviews of the run, and between them a healthy one.
abbrev seen_events : List MonitorEvent
seen_events =
    review answer "mon_1" 30 ""
    ∷ review
        (record answer {
          handoff_required = false;
          citations = "kb" ∷ [];
          trace = record answer.trace { policy_findings = [] };
        })
        "mon_2" 31 ""
    ∷ review answer "mon_3" 32 ""
    ∷ []

summarize-total_count_example :
    total_count (summarize_alerts seen_events [])
    ≡ length (select (λ e. not (is_healthy e)) seen_events)
summarize-total_count_example = summarize-total_count seen_events []

-- The two alerted reviews have one alert.
summary_test : map (λ (a : MonitorAlert). a.count) (summarize_alerts seen_events []) ≡ 2 ∷ []
unfolding review unkeyed_review is_alerted failure_types_of check_input check_output
    production_support_agent.Prelude.select summarize_alerts group_events add_to_group sort_alerts
    insert_alert build_alert is_healthy monitor_alert_key failure_key sorted_texts
    production_support_agent.Monitor.Review.needs_review production_support_agent.Prelude.filled_or
    production_support_agent.Agent.Routing.intent_value production_support_agent.Prelude.join
summary_test = refl
