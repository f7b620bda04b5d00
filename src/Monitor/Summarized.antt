-- ===== src/Monitor/Summarized.antt =====
-- The counts of the alerts that monitoring/monitor.py summarizes.
use production_support_agent.Monitor.Review.{monitor_alert_key}
use production_support_agent.Monitor.Events.{MonitorEvent, MonitorAlert, TriageEvent}
use production_support_agent.Monitor.Triage.{triage_alert, triage_loop, apply_monitor_triage}
use production_support_agent.Monitor.Summary.{
  EventGroup, is_healthy, add_to_group, group_events, build_alert, goes_first, insert_alert,
  sort_alerts, triaged_alerts, summarize_alerts,
}
use production_support_agent.Prelude.{
  ℕ, ◌+◌, String, ◌≡◌, refl, ◌∙◌, inl, inr, Bool, not, List, [], ◌∷◌, map, arith, ◌==◌, string_eq,
  nat_eq, Bool-cases, length, length-append, select, sort_by, update_where, filled_or,
}

-- The sum of the counts of alerts.
abbrev pub total_count : List MonitorAlert → ℕ
total_count [] = 0
total_count (a ∷ alerts) = a.count + total_count alerts

abbrev grouped_count : List EventGroup → ℕ
grouped_count [] = 0
grouped_count (g ∷ gs) = 1 + length g.later + grouped_count gs

add_to_group-grouped_count :
    (key : String) (event : MonitorEvent) (groups : List EventGroup)
    → grouped_count (add_to_group key event groups) ≡ grouped_count groups + 1
unfolding add_to_group
add_to_group-grouped_count key event [] = refl
add_to_group-grouped_count key event (g ∷ gs) = elim (Bool-cases (g.group_key == key)) [
  | inl t ↦ rw t (omega (arith, length-append g.later (event ∷ [])))
  | inr t ↦ rw t (omega (arith, add_to_group-grouped_count key event gs))
]

group_events-grouped_count :
    (groups : List EventGroup) (events : List MonitorEvent)
    → grouped_count (group_events groups events)
      ≡ grouped_count groups + length (select (λ e. not (is_healthy e)) events)
unfolding group_events select
group_events-grouped_count groups [] = omega arith
group_events-grouped_count groups (event ∷ events) = elim (Bool-cases (is_healthy event)) [
  | inl t ↦ rw t (group_events-grouped_count groups events)
  | inr t ↦
      let key = filled_or event.alert_key (monitor_alert_key event) in
      rw t (
        omega (
          arith,
          group_events-grouped_count (add_to_group key event groups) events,
          add_to_group-grouped_count key event groups,
        ))
]

build_alert-total_count :
    (groups : List EventGroup) → total_count (map build_alert groups) ≡ grouped_count groups
unfolding build_alert
build_alert-total_count [] = refl
build_alert-total_count (g ∷ gs) = omega (arith, build_alert-total_count gs)

update_where-total_count :
    (p : MonitorAlert → Bool) (event : TriageEvent) (alerts : List MonitorAlert)
    → total_count (update_where p (triage_alert event) alerts) ≡ total_count alerts
unfolding update_where triage_alert
update_where-total_count p event [] = refl
update_where-total_count p event (a ∷ alerts) = elim (Bool-cases (p a)) [
  | inl t ↦ rw t (omega (arith, update_where-total_count p event alerts))
  | inr t ↦ rw t (omega (arith, update_where-total_count p event alerts))
]

triage_loop-total_count :
    (events : List TriageEvent) (alerts : List MonitorAlert)
    → total_count (triage_loop alerts events) ≡ total_count alerts
unfolding triage_loop
triage_loop-total_count [] alerts = refl
triage_loop-total_count (event ∷ events) alerts =
    triage_loop-total_count events _
    ∙ update_where-total_count (λ (alert : MonitorAlert). alert.key == event.alert_key) event alerts

triaged_alerts-total_count :
    (alerts : List MonitorAlert) (events : List TriageEvent)
    → total_count (triaged_alerts alerts events) ≡ total_count alerts
unfolding apply_monitor_triage
triaged_alerts-total_count alerts [] = refl
triaged_alerts-total_count alerts (event ∷ events) =
    triage_loop-total_count (sort_by (λ (e : TriageEvent). e.created_at) (event ∷ events)) alerts

insert_alert-total_count :
    (a : MonitorAlert) (alerts : List MonitorAlert)
    → total_count (insert_alert a alerts) ≡ a.count + total_count alerts
unfolding insert_alert
insert_alert-total_count a [] = refl
insert_alert-total_count a (b ∷ bs) = elim (Bool-cases (goes_first a b)) [
  | inl t ↦ rw t refl
  | inr t ↦ rw t (omega (arith, insert_alert-total_count a bs))
]

sort_alerts-total_count :
    (alerts : List MonitorAlert) → total_count (sort_alerts alerts) ≡ total_count alerts
unfolding sort_alerts
sort_alerts-total_count [] = refl
sort_alerts-total_count (a ∷ alerts) =
    omega (arith, insert_alert-total_count a (sort_alerts alerts), sort_alerts-total_count alerts)

-- The counts of the alerts of a summary, after grouping by key, triage and sorting, add up to the
-- number of the events that are not healthy.
pub summarize-total_count :
    (events : List MonitorEvent) (triage_events : List TriageEvent)
    → total_count (summarize_alerts events triage_events)
      ≡ length (select (λ e. not (is_healthy e)) events)
unfolding summarize_alerts
summarize-total_count events triage_events =
    let groups = group_events [] events in
    let alerts = map build_alert groups in
    omega (
      arith,
      sort_alerts-total_count (triaged_alerts alerts triage_events),
      triaged_alerts-total_count alerts triage_events,
      build_alert-total_count groups,
      group_events-grouped_count [] events,
    )
