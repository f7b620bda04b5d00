-- ===== src/Memory/Events.antt =====
-- memory/event_store.py: the events of messages and of runs, append_message, append_agent_run,
-- append_monitor_event and list_conversation_memory_events. The table is the list of its rows in rowid
-- order. A payload, which is JSON in the table, stands as what it was written from.
use production_support_agent.Memory.State.{Message, role_value}
use production_support_agent.Prelude.{
  ℕ, String, Bool, false, ◌&&◌, Option, none, some, List, [], ◌∷◌, ◌==◌, nat_eq, string_eq,
  contains, take, sort_by, before, select,
}

-- What replay reads of a trace; the intent as its text.
pub record RunPayload : Type 0 where
  pub tenant_id : String
  pub conversation_id : String
  pub user_id : String
  pub primary : Option String

-- The dump of a message, of a trace, or another object, without the keys that replay reads.
pub data EventPayload : Type 0 where
  of_message : Message → EventPayload
  of_run : RunPayload → EventPayload
  of_other : String → EventPayload

-- StoredEvent, less its id
pub record StoredEvent : Type 0 where
  pub tenant_id : String
  pub conversation_id : Option String
  pub user_id : Option String
  pub run_id : Option String
  pub event_type : String
  pub payload : EventPayload
  pub created_at : ℕ

-- append_message, at a time
unfoldable pub message_event : Message → ℕ → StoredEvent
message_event message now = record {
  tenant_id = message.tenant_id;
  conversation_id = some message.conversation_id;
  user_id = some message.user_id;
  run_id = none;
  event_type = before "message." (role_value message.role);
  payload = of_message message;
  created_at = now;
}

-- append_agent_run
unfoldable pub run_event : RunPayload → String → ℕ → StoredEvent
run_event trace run_id now = record {
  tenant_id = trace.tenant_id;
  conversation_id = some trace.conversation_id;
  user_id = some trace.user_id;
  run_id = some run_id;
  event_type = "agent.run.completed";
  payload = of_run trace;
  created_at = now;
}

-- append_monitor_event
unfoldable pub monitor_event : String → String → String → String → ℕ → StoredEvent
monitor_event tenant_id conversation_id run_id dump now = record {
  tenant_id = tenant_id;
  conversation_id = some conversation_id;
  user_id = none;
  run_id = some run_id;
  event_type = "monitor.reviewed";
  payload = of_other dump;
  created_at = now;
}

-- MEMORY_REPLAY_EVENT_TYPES
abbrev pub memory_replay_event_types : List String
memory_replay_event_types = "message.user" ∷ "message.assistant" ∷ "agent.run.completed" ∷ []

-- `conversation_id = ?` on a column that may be null
abbrev pub is_of : Option String → String → Bool
is_of none conversation_id = false
is_of (some own) conversation_id = own == conversation_id

-- The `where` clause.
unfoldable pub is_memory_event : String → String → StoredEvent → Bool
is_memory_event tenant_id conversation_id event =
    event.tenant_id == tenant_id
    && is_of event.conversation_id conversation_id
    && contains memory_replay_event_types event.event_type

abbrev pub event_time : StoredEvent → ℕ
event_time event = event.created_at

-- `limit ?`, where there is one
abbrev pub limited : Option ℕ → List StoredEvent → List StoredEvent
limited none events = events
limited (some n) events = take n events

unfoldable pub list_conversation_memory_events :
    List StoredEvent → String → String → Option ℕ → List StoredEvent
list_conversation_memory_events rows tenant_id conversation_id limit =
    limited limit (sort_by event_time (select (is_memory_event tenant_id conversation_id) rows))
