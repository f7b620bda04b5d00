-- ===== src/Monitor/Summary.antt =====
-- monitoring/monitor.py, the alerts of summarize_monitor_events, with _build_alert and _severity_rank.
use Prim.Native.Nat.{Ordering}
use Prim.Native.String.{compare}
use production_support_agent.Models.{open_alert}
use production_support_agent.Monitor.Events.{MonitorEvent, MonitorAlert, TriageEvent}
use production_support_agent.Monitor.Review.{has_any, monitor_alert_key}
use production_support_agent.Monitor.Triage.{severity_for, apply_monitor_triage}
use production_support_agent.Dispatcher.Enqueuing.{severity_rank}
use production_support_agent.Dispatcher.Webhook.{decimal}
use production_support_agent.Prelude.{
  ℕ, String, Bool, true, false, not, ◌&&◌, ◌||◌, List, [], ◌∷◌, ◌++◌, map, none, if◌then◌else◌, ltb,
  ◌==◌, nat_eq, string_eq, length, take, before, filled_or, min, max, ◌+◌,
}

-- The condition of `continue`.
unfoldable pub is_healthy : MonitorEvent → Bool
is_healthy event =
    not (has_any event.failure_types)
    && event.grounded
    && event.policy_compliant
    && not event.needs_human_review

-- An entry of `alerts_by_key`, whose list is never empty.
pub record EventGroup : Type 0 where
  pub group_key : String
  pub first : MonitorEvent
  pub later : List MonitorEvent

-- `alerts_by_key[key].append(event)`, with the keys in the order of their first events
unfoldable pub add_to_group : String → MonitorEvent → List EventGroup → List EventGroup
add_to_group key event [] = record { group_key = key; first = event; later = [] } ∷ []
add_to_group key event (g ∷ gs) =
    let rest = add_to_group key event gs in
    if g.group_key == key then record g { later = g.later ++ event ∷ [] } ∷ gs else g ∷ rest

-- The loop over events.
unfoldable pub group_events : List EventGroup → List MonitorEvent → List EventGroup
group_events groups [] = groups
group_events groups (event ∷ events) =
    group_events
      (if is_healthy event
        then groups
        else add_to_group (filled_or event.alert_key (monitor_alert_key event)) event groups)
      events

-- A Counter, in the order of the first occurrences.
abbrev count_text : String → List (String × ℕ) → List (String × ℕ)
count_text text [] = (text, 1) ∷ []
count_text text (c ∷ cs) =
    let rest = count_text text cs in if c.0 == text then (c.0, c.1 + 1) ∷ cs else c ∷ rest

abbrev counter : List (String × ℕ) → List String → List (String × ℕ)
counter counts [] = counts
counter counts (text ∷ texts) = counter (count_text text counts) texts

-- `most_common(1)[0][0]`, the first of those that are counted most
abbrev most_common : String × ℕ → List (String × ℕ) → String
most_common best [] = best.0
most_common best (c ∷ cs) = most_common (if ltb best.1 c.1 then c else best) cs

unfoldable pub top_failure : List (String × ℕ) → String
top_failure [] = "QUALITY_REVIEW"
top_failure (c ∷ cs) = most_common c cs

abbrev failures_of : List MonitorEvent → List String
failures_of [] = []
failures_of (event ∷ events) = event.failure_types ++ failures_of events

abbrev first_time : ℕ → List MonitorEvent → ℕ
first_time time [] = time
first_time time (event ∷ events) = first_time (min time event.timestamp) events

abbrev last_time : ℕ → List MonitorEvent → ℕ
last_time time [] = time
last_time time (event ∷ events) = last_time (max time event.timestamp) events

-- _build_alert
unfoldable pub build_alert : EventGroup → MonitorAlert
build_alert g =
    let events = g.first ∷ g.later in
    let count = length events in
    record {
      severity = severity_for events;
      key = g.group_key;
      count = count;
      reason =
          before (top_failure (counter [] (failures_of events)))
            (before " clustered across " (before (decimal (count + 1) count) " event(s)"));
      first_seen_at = first_time g.first.timestamp g.later;
      last_seen_at = last_time g.first.timestamp g.later;
      sample_event_ids = map (λ (e : MonitorEvent). e.id) (take 3 events);
      sample_run_ids = map (λ (e : MonitorEvent). e.run_id) (take 3 events);
      status = open_alert;
      assignee_user_id = none;
      last_triage_event_id = none;
      last_triage_at = none;
      last_triage_note = none;
      new_events_since_triage = false;
    }

-- `text <= other`
abbrev text_leb : String → String → Bool
text_leb text other = elim (compare text other) [ Ordering.gt ↦ false | _ ↦ true ]

-- The order of alerts: by rank (_severity_rank is the table that the dispatcher also has), then the larger count, then the key.
unfoldable pub goes_first : MonitorAlert → MonitorAlert → Bool
goes_first a b =
    ltb (severity_rank a.severity) (severity_rank b.severity)
    || (severity_rank a.severity == severity_rank b.severity
        && (ltb b.count a.count || (a.count == b.count && text_leb a.key b.key)))

unfoldable pub insert_alert : MonitorAlert → List MonitorAlert → List MonitorAlert
insert_alert a [] = a ∷ []
insert_alert a (b ∷ bs) =
    let rest = insert_alert a bs in if goes_first a b then a ∷ b ∷ bs else b ∷ rest

-- `alerts.sort`
unfoldable pub sort_alerts : List MonitorAlert → List MonitorAlert
sort_alerts [] = []
sort_alerts (a ∷ alerts) = insert_alert a (sort_alerts alerts)

-- `if triage_events`
abbrev pub triaged_alerts : List MonitorAlert → List TriageEvent → List MonitorAlert
triaged_alerts alerts [] = alerts
triaged_alerts alerts (event ∷ events) = apply_monitor_triage alerts (event ∷ events)

-- The alerts of summarize_monitor_events
unfoldable pub summarize_alerts : List MonitorEvent → List TriageEvent → List MonitorAlert
summarize_alerts events triage_events =
    sort_alerts (triaged_alerts (map build_alert (group_events [] events)) triage_events)
