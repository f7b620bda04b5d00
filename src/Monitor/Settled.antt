-- ===== src/Monitor/Settled.antt =====
-- What triage keeps of an alert, and how severity grows.
use production_support_agent.Monitor.Events.{MonitorEvent, MonitorAlert}
use production_support_agent.Prelude.{
  ℕ, ◌≤◌, ◌≡◌, Bool, true, false, ◌&&◌, Option, none, some, List, [], ◌∷◌, ◌++◌, arith, ltb, nat_eq,
  string_eq, any,
}
use production_support_agent.Monitor.Triage.{is_p0, is_p1, is_p2, severity_for, is_resolved}
use production_support_agent.Dispatcher.Enqueuing.{severity_rank}

any_grows :
    (p : MonitorEvent → Bool) (xs ys : List MonitorEvent)
    → any p xs ≡ true
    → any p (xs ++ ys) ≡ true
unfolding any
any_grows p [] ys h = absurd (ground arith)
any_grows p (x ∷ xs) ys h = ground (arith, any_grows p xs ys)

-- More events in a group never make its alert less severe: P0 has the rank 0.
pub severity_for_grows :
    (events more : List MonitorEvent)
    → severity_rank (severity_for (events ++ more)) ≤ severity_rank (severity_for events)
unfolding severity_for
severity_for_grows events more =
    ground
      (arith, any_grows is_p0 events more, any_grows is_p1 events more, any_grows is_p2 events more)

-- Whether an alert was seen after its last triage.
abbrev pub is_seen_after : Option ℕ → ℕ → Bool
is_seen_after none last_seen_at = false
is_seen_after (some triaged_at) last_seen_at = ltb triaged_at last_seen_at

-- An alert whose status, mark of new events and time of triage agree.
pub record IsSettled (alert : MonitorAlert) : Type 0 where
  pub not_resolved : (alert.new_events_since_triage && is_resolved alert.status) ≡ false
  pub marked : alert.new_events_since_triage ≡ is_seen_after alert.last_triage_at alert.last_seen_at
