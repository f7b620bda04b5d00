-- ===== src/Memory/Turns.antt =====
-- agent/orchestrator.py, the memory and the events in handle_message, _finalize and
-- hydrate_memory_from_events. What comes between the message and the answer (the plan, the tools, the
-- LLM) is given by the turn: the answer, or an exception, by which no answer is recorded.
use production_support_agent.Agent.Routing.{intent_value}
use production_support_agent.Memory.Events.{
  RunPayload, StoredEvent, monitor_event, message_event, list_conversation_memory_events, run_event,
}
use production_support_agent.Memory.Replay.{
  ReplayError, MemoryReplayResult, replay_conversation_memory,
}
use production_support_agent.Models.{IntentType}
use production_support_agent.Memory.State.{
  ConversationMemory, Message, ConversationState, MemoryError, add_message, empty_memory, user,
  assistant, belongs_to, with_state,
}
use production_support_agent.Prelude.{
  ℕ, String, Option, none, some, List, [], ◌∷◌, ◌++◌, if◌then◌else◌, nat_eq, string_eq, ok, err,
  Result, get_key,
}

-- The state of a process and the rows of its event store, if it has one.
pub record System : Type 0 where
  pub tenant_id : String
  pub memory : ConversationMemory
  pub event_store : Option (List StoredEvent)

-- What is given of one call of handle_message: the new identifiers, the times of the clock at the
-- start and at the end, the text without personal data, the intent that was detected, and the answer
-- with the dump of the monitor's event.
pub record ChatTurn : Type 0 where
  pub conversation_id : String
  pub user_id : String
  pub started_at : ℕ
  pub finished_at : ℕ
  pub message_id : String
  pub metadata : String
  pub content : String
  pub intent : IntentType
  pub answer : Option String
  pub answer_id : String
  pub answer_metadata : String
  pub run_id : String
  pub monitor_dump : Option String

pub data TurnError : Type 0 where
  permission : TurnError
  replay_failed : ReplayError → TurnError
  turn_failed : TurnError

abbrev pub user_message : String → ChatTurn → Message
user_message tenant_id turn = record {
  id = turn.message_id;
  tenant_id = tenant_id;
  conversation_id = turn.conversation_id;
  user_id = turn.user_id;
  role = user;
  content = turn.content;
  created_at = turn.started_at;
  metadata = turn.metadata;
}

abbrev pub answer_message : String → ChatTurn → String → Message
answer_message tenant_id turn answer = record {
  id = turn.answer_id;
  tenant_id = tenant_id;
  conversation_id = turn.conversation_id;
  user_id = turn.user_id;
  role = assistant;
  content = answer;
  created_at = turn.finished_at;
  metadata = turn.answer_metadata;
}

-- The dump of the trace, as far as replay reads it.
abbrev pub trace_payload : String → ChatTurn → RunPayload
trace_payload tenant_id turn = record {
  tenant_id = tenant_id;
  conversation_id = turn.conversation_id;
  user_id = turn.user_id;
  primary = some (intent_value turn.intent);
}

abbrev pub monitor_events : String → ChatTurn → Option String → List StoredEvent
monitor_events tenant_id turn none = []
monitor_events tenant_id turn (some dump) =
    monitor_event tenant_id turn.conversation_id turn.run_id dump turn.finished_at ∷ []

-- The events that _finalize appends.
unfoldable pub final_events : String → ChatTurn → String → List StoredEvent
final_events tenant_id turn answer =
    message_event (answer_message tenant_id turn answer) turn.finished_at
    ∷ run_event (trace_payload tenant_id turn) turn.run_id turn.finished_at
    ∷ monitor_events tenant_id turn turn.monitor_dump

-- `if self.event_store: append`
abbrev pub appended : Option (List StoredEvent) → List StoredEvent → Option (List StoredEvent)
appended none events = none
appended (some rows) events = some (rows ++ events)

-- The end of a replay in hydrate_memory_from_events.
unfoldable pub restored :
    System → String → String → Result ReplayError MemoryReplayResult → Result TurnError System
restored s conversation_id user_id (err error) = err (replay_failed error)
restored s conversation_id user_id (ok replay) =
    if belongs_to replay.state s.tenant_id user_id
    then ok (record s { memory = with_state s.memory conversation_id replay.state })
    else err permission

-- A process answers messages and may be started again, with the same store.
pub data ProcessStep : Type 0 where
  message_step : ChatTurn → ProcessStep
  restart_step : ProcessStep

-- A new process on the store of another.
abbrev pub restarted : System → System
restarted s = record s { memory = empty_memory }

module _ (find_order : String → Option String) where
  -- `if not events: return`
  unfoldable pub restored_from :
      System → String → String → ℕ → List StoredEvent → Result TurnError System
  restored_from s conversation_id user_id now [] = ok s
  restored_from s conversation_id user_id now (event ∷ events) =
      restored s conversation_id user_id
        (replay_conversation_memory find_order now (event ∷ events))

  unfoldable pub from_store :
      System → String → String → Option ℕ → ℕ → Option (List StoredEvent) → Result TurnError System
  from_store s conversation_id user_id limit now none = ok s
  from_store s conversation_id user_id limit now (some rows) =
      restored_from s conversation_id user_id now
        (list_conversation_memory_events rows s.tenant_id conversation_id limit)

  -- `if conversation_id in self.memory.states`
  unfoldable pub loaded :
      System → String → String → Option ℕ → ℕ → Option ConversationState → Result TurnError System
  loaded s conversation_id user_id limit now (some state) =
      if belongs_to state s.tenant_id user_id then ok s else err permission
  loaded s conversation_id user_id limit now none =
      from_store s conversation_id user_id limit now s.event_store

  unfoldable pub hydrate_memory_from_events :
      System → String → String → Option ℕ → ℕ → Result TurnError System
  hydrate_memory_from_events s conversation_id user_id limit now =
      loaded s conversation_id user_id limit now (get_key s.memory.states conversation_id)

  -- _finalize, in the memory and the store
  abbrev pub finalized :
      System → ChatTurn → String → Result MemoryError ConversationMemory → System × Option TurnError
  finalized s turn answer (err raised) = (s, some permission)
  finalized s turn answer (ok memory) = (
    record s {
      memory = memory;
      event_store = appended s.event_store (final_events s.tenant_id turn answer);
    },
    none,
  )

  -- `state.last_intent = intent.primary`, of the state that add_message returned
  abbrev pub with_last_intent :
      ConversationMemory → ChatTurn → Option ConversationState → ConversationMemory
  with_last_intent memory turn none = memory
  with_last_intent memory turn (some state) =
      with_state memory turn.conversation_id (record state { last_intent = some turn.intent })

  abbrev pub answered : System → ChatTurn → Option String → System × Option TurnError
  answered s turn none = (s, some turn_failed)
  answered s turn (some answer) =
      finalized s turn answer
        (add_message find_order s.memory (answer_message s.tenant_id turn answer) turn.finished_at)

  -- From the user's message on.
  abbrev pub remembered :
      System → ChatTurn → Result MemoryError ConversationMemory → System × Option TurnError
  remembered s turn (err raised) = (s, some permission)
  remembered s turn (ok memory) =
      answered
        (record s {
          memory = with_last_intent memory turn (get_key memory.states turn.conversation_id);
          event_store =
              appended s.event_store
                (message_event (user_message s.tenant_id turn) turn.started_at ∷ []);
        })
        turn turn.answer

  abbrev pub hydrated : System → ChatTurn → Result TurnError System → System × Option TurnError
  hydrated s turn (err raised) = (s, some raised)
  hydrated s turn (ok loaded_system) = remembered loaded_system turn (
      add_message find_order loaded_system.memory (user_message loaded_system.tenant_id turn)
        turn.started_at)

  -- handle_message: the system after it, and what it raised
  unfoldable pub handle_message : System → ChatTurn → System × Option TurnError
  handle_message s turn =
      hydrated s turn
        (hydrate_memory_from_events s turn.conversation_id turn.user_id none turn.started_at)

  unfoldable pub run_step : System → ProcessStep → System
  run_step s (message_step turn) = (handle_message s turn).0
  run_step s restart_step = restarted s

  unfoldable pub run_steps : System → List ProcessStep → System
  run_steps s [] = s
  run_steps s (step ∷ steps) = run_steps (run_step s step) steps
