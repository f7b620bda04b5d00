-- ===== src/Monitor/Examples.antt =====
-- Tests of triage, and the witnesses of its properties.
use production_support_agent.Models.{open_alert, resolved, low, unknown, p0}
use production_support_agent.Monitor.Events.{MonitorEvent, MonitorAlert, TriageEvent}
use production_support_agent.Prelude.{ℕ, ◌≡◌, refl, true, false, none, some, [], nat_eq, string_eq}
use production_support_agent.Monitor.Triage.{is_resolved, triaged_status}

abbrev leak : MonitorEvent
leak = record {
  id = "mon_1";
  conversation_id = "c";
  run_id = "r";
  timestamp = 10;
  agent_version = "v";
  user_intent = unknown;
  alert_key = none;
  risk_level = low;
  grounded = true;
  policy_compliant = false;
  pii_leak = true;
  needs_human_review = true;
  failure_types = [];
  summary = "";
}

abbrev fresh_alert : MonitorAlert
fresh_alert = record {
  severity = p0;
  key = "v:unknown:QUALITY_REVIEW";
  count = 1;
  reason = "";
  first_seen_at = 10;
  last_seen_at = 10;
  sample_event_ids = [];
  sample_run_ids = [];
  status = open_alert;
  assignee_user_id = none;
  last_triage_event_id = none;
  last_triage_at = none;
  last_triage_note = none;
  new_events_since_triage = false;
}

abbrev resolving : ℕ → TriageEvent
resolving at = record {
  id = "tri_1";
  alert_key = "v:unknown:QUALITY_REVIEW";
  status = some resolved;
  assignee_user_id = none;
  actor_user_id = "u";
  note = "";
  created_at = at;
}

-- Resolved after it was last seen, an alert stays resolved; resolved before, it is open again.
late_test : triaged_status fresh_alert (resolving 11) ≡ resolved
unfolding triaged_status
late_test = refl

early_test : triaged_status fresh_alert (resolving 5) ≡ open_alert
unfolding triaged_status is_resolved
early_test = refl
