-- ===== src/Monitor/Triage.antt =====
-- monitoring/monitor.py, _severity_for and apply_monitor_triage. The alerts of a summary are grouped
-- by key, so an event of triage concerns one alert at most.
use production_support_agent.Monitor.Events.{MonitorEvent, MonitorAlert, TriageEvent}
use production_support_agent.Prelude.{
  Bool, true, false, not, ◌&&◌, ◌||◌, none, some, List, [], ◌∷◌, ltb, if◌then◌else◌, ◌==◌, nat_eq,
  string_eq, update_where, sort_by, any,
}
use production_support_agent.Models.{
  p0, p1, p2, p3, high, critical, open_alert, resolved, acknowledged, investigating, silenced, low,
  medium, RiskLevel, AlertStatus, Severity,
}

unfoldable pub is_critical_risk : RiskLevel → Bool
is_critical_risk low = false
is_critical_risk medium = false
is_critical_risk high = false
is_critical_risk critical = true

unfoldable pub is_just_high_risk : RiskLevel → Bool
is_just_high_risk low = false
is_just_high_risk medium = false
is_just_high_risk high = true
is_just_high_risk critical = false

-- The three tests of _severity_for on an event.
abbrev pub is_p0 : MonitorEvent → Bool
is_p0 event = event.pii_leak || is_critical_risk event.risk_level

abbrev pub is_p1 : MonitorEvent → Bool
is_p1 event = is_just_high_risk event.risk_level || not event.policy_compliant

abbrev pub is_p2 : MonitorEvent → Bool
is_p2 event = event.needs_human_review || not event.grounded

-- _severity_for
unfoldable pub severity_for : List MonitorEvent → Severity
severity_for events =
    if any is_p0 events
    then p0
    else if any is_p1 events
    then p1
    else if any is_p2 events
    then p2
    else p3

-- `alert.status == MonitorAlertStatus.resolved`
unfoldable pub is_resolved : AlertStatus → Bool
is_resolved open_alert = false
is_resolved acknowledged = false
is_resolved investigating = false
is_resolved resolved = true
is_resolved silenced = false

-- The status after an event: the event's, unless it resolves what has been seen again since.
unfoldable pub triaged_status : MonitorAlert → TriageEvent → AlertStatus
triaged_status alert event =
    let status : AlertStatus = elim event.status [ none ↦ alert.status | some given ↦ given ] in
    if ltb event.created_at alert.last_seen_at && is_resolved status then open_alert else status

-- The body of the loop of apply_monitor_triage, for the alert of the event.
unfoldable pub triage_alert : TriageEvent → MonitorAlert → MonitorAlert
triage_alert event alert = record alert {
  status = triaged_status alert event;
  assignee_user_id = elim event.assignee_user_id [
    | none ↦ alert.assignee_user_id
    | some user ↦ some user
  ];
  last_triage_note = if event.note == "" then alert.last_triage_note else some event.note;
  last_triage_event_id = some event.id;
  last_triage_at = some event.created_at;
  new_events_since_triage = ltb event.created_at alert.last_seen_at;
}

-- The loop over events in order, and apply_monitor_triage, which sorts them by `created_at`.
unfoldable pub triage_loop : List MonitorAlert → List TriageEvent → List MonitorAlert
triage_loop alerts [] = alerts
triage_loop alerts (event ∷ events) =
    triage_loop
      (update_where (λ (alert : MonitorAlert). alert.key == event.alert_key) (triage_alert event)
        alerts)
      events

unfoldable pub apply_monitor_triage : List MonitorAlert → List TriageEvent → List MonitorAlert
apply_monitor_triage alerts events =
    triage_loop alerts (sort_by (λ (event : TriageEvent). event.created_at) events)
