-- ===== src/Memory/Appended.antt =====
-- The events that a turn appends, as replay reads them.
use production_support_agent.Memory.Consistent.{events_of}
use production_support_agent.Memory.State.{role_value}
use production_support_agent.Memory.Events.{
  StoredEvent, message_event, run_event, monitor_event, is_memory_event, event_time,
}
use production_support_agent.Memory.Turns.{
  ChatTurn, final_events, user_message, answer_message, trace_payload, monitor_events,
}
use production_support_agent.Prelude.{
  ℕ, ◌≤◌, String, ◌≡◌, refl, inl, inr, false, Option, none, some, List, [], ◌∷◌, arith, eq_refl,
  ◌==◌, nat_eq, string_eq, Bool-cases, All, select, Ascending, contains, All-map,
}

-- The user's message as an event, and the two events of the answer.
abbrev pub asked_event : String → ChatTurn → StoredEvent
asked_event tenant_id turn = message_event (user_message tenant_id turn) turn.started_at

abbrev pub answer_event : String → ChatTurn → String → StoredEvent
answer_event tenant_id turn answer =
    message_event (answer_message tenant_id turn answer) turn.finished_at

abbrev pub turn_event : String → ChatTurn → StoredEvent
turn_event tenant_id turn = run_event (trace_payload tenant_id turn) turn.run_id turn.finished_at

module _ (tenant_id : String) (turn : ChatTurn) where
  pub events_of-asked :
      events_of tenant_id turn.conversation_id (asked_event tenant_id turn ∷ [])
      ≡ asked_event tenant_id turn ∷ []
  unfolding select is_memory_event message_event role_value contains
  events_of-asked = rw (eq_refl tenant_id, eq_refl turn.conversation_id) refl

  pub events_of-asked_other :
      (other : String)
      → (turn.conversation_id == other) ≡ false
      → events_of tenant_id other (asked_event tenant_id turn ∷ []) ≡ []
  unfolding select is_memory_event message_event
  events_of-asked_other other apart = rw (eq_refl tenant_id, apart) refl

  monitor_ignored :
      (other : String) (dump : Option String)
      → events_of tenant_id other (monitor_events tenant_id turn dump) ≡ []
  unfolding select is_memory_event monitor_event contains
  monitor_ignored other none = refl
  monitor_ignored other (some dump) = elim (Bool-cases (turn.conversation_id == other)) [
    | inl t ↦ rw (eq_refl tenant_id, t) refl
    | inr t ↦ rw (eq_refl tenant_id, t) refl
  ]

  pub events_of-final :
      (answer : String)
      → events_of tenant_id turn.conversation_id (final_events tenant_id turn answer)
        ≡ answer_event tenant_id turn answer ∷ turn_event tenant_id turn ∷ []
  unfolding final_events select is_memory_event message_event run_event role_value contains
  events_of-final answer =
      rw
        (
          eq_refl tenant_id,
          eq_refl turn.conversation_id,
          monitor_ignored turn.conversation_id turn.monitor_dump,
        )
        refl

  pub events_of-final_other :
      (answer other : String)
      → (turn.conversation_id == other) ≡ false
      → events_of tenant_id other (final_events tenant_id turn answer) ≡ []
  unfolding final_events select is_memory_event message_event run_event
  events_of-final_other answer other apart =
      rw (eq_refl tenant_id, apart, monitor_ignored other turn.monitor_dump) refl

  monitor_at :
      (dump : Option String)
      → All (λ e. e.created_at ≡ turn.finished_at) (monitor_events tenant_id turn dump)
  unfolding monitor_event
  monitor_at none = tt
  monitor_at (some dump) = (refl, tt)

  -- The events of the answer are of the end of the turn.
  pub final_at :
      (answer : String)
      → All (λ e. e.created_at ≡ turn.finished_at) (final_events tenant_id turn answer)
  unfolding final_events message_event run_event
  final_at answer = (refl, (refl, monitor_at turn.monitor_dump))

-- Events of one time are in order.
pub same_time-Ascending :
    (at : ℕ) (es : List StoredEvent) → All (λ e. e.created_at ≡ at) es → Ascending event_time es
same_time-Ascending at [] h = tt
same_time-Ascending at (e ∷ es) h = (
  All-map (λ x. x.created_at ≡ at) (λ x. e.created_at ≤ x.created_at) es
      (λ x k. ground (arith, h.0, k)) h.1,
  same_time-Ascending at es h.1,
)
