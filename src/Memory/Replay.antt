-- ===== src/Memory/Replay.antt =====
-- memory/replay.py: a conversation's state from its events.
use production_support_agent.Memory.Events.{
  StoredEvent, of_message, is_of, of_run, of_other, EventPayload,
}
use production_support_agent.Models.{
  IntentType, order_status, refund_or_return, billing, technical_issue, complaint, account_security,
  general_question, unknown,
}
use production_support_agent.Memory.State.{
  MemoryError, ConversationMemory, ConversationState, empty_memory, Message, with_state,
  add_message,
}
use production_support_agent.Prelude.{
  ℕ, ◌+◌, String, Bool, true, false, not, Option, none, some, List, [], ◌∷◌, if◌then◌else◌, ◌==◌,
  ◌>>=◌, nat_eq, string_eq, is_some, length, ok, err, Result, is_blank, get_key, after_prefix,
}

-- A ValueError by its text, pydantic's for a payload that is no message, or the PermissionError of the
-- memory.
pub data ReplayError : Type 0 where
  no_events no_conversation_id foreign_event invalid_message no_messages : ReplayError
  message_tenant message_conversation message_user : ReplayError
  run_tenant run_conversation run_user invalid_intent : ReplayError
  memory_error : MemoryError → ReplayError

-- `payload.get(key)` for the three keys, and `(payload.get("intent") or {}).get("primary")`
unfoldable pub payload_tenant : EventPayload → Option String
payload_tenant (of_message m) = some m.tenant_id
payload_tenant (of_run r) = some r.tenant_id
payload_tenant (of_other dump) = none

unfoldable pub payload_conversation : EventPayload → Option String
payload_conversation (of_message m) = some m.conversation_id
payload_conversation (of_run r) = some r.conversation_id
payload_conversation (of_other dump) = none

unfoldable pub payload_user : EventPayload → Option String
payload_user (of_message m) = some m.user_id
payload_user (of_run r) = some r.user_id
payload_user (of_other dump) = none

unfoldable pub payload_intent : EventPayload → Option String
payload_intent (of_message m) = none
payload_intent (of_run r) = r.primary
payload_intent (of_other dump) = none

-- `Message.model_validate(event.payload)`
unfoldable pub validated_message : EventPayload → Result ReplayError Message
validated_message (of_message m) = ok m
validated_message (of_run r) = err invalid_message
validated_message (of_other dump) = err invalid_message

-- `IntentType(text)`
unfoldable pub intent_of : String → Option IntentType
intent_of s =
    if s == "order_status"
    then some order_status
    else if s == "refund_or_return"
    then some refund_or_return
    else if s == "billing"
    then some billing
    else if s == "technical_issue"
    then some technical_issue
    else if s == "complaint"
    then some complaint
    else if s == "account_security"
    then some account_security
    else if s == "general_question"
    then some general_question
    else if s == "unknown"
    then some unknown
    else none

-- `if not condition: raise error`
abbrev pub ensure : Bool → ReplayError → Result {0, 0} ReplayError (Unit {0})
ensure true error = ok tt
ensure false error = err error

-- `not (event.user_id and event.user_id != user_id)`
unfoldable pub fits_user : Option String → Option String → Bool
fits_user none other = true
fits_user (some user_id) other = if is_blank user_id then true else is_of other user_id

-- _validate_message_event
unfoldable pub validate_message_event : StoredEvent → Message → Result {0, 0} ReplayError (Unit {0})
validate_message_event event message = do
  _ ← ensure (event.tenant_id == message.tenant_id) message_tenant
  _ ← ensure (is_of event.conversation_id message.conversation_id) message_conversation
  ensure (fits_user event.user_id (some message.user_id)) message_user

-- _validate_run_event, of an event that has a conversation
unfoldable pub validate_run_event : StoredEvent → String → Result {0, 0} ReplayError (Unit {0})
validate_run_event event conversation_id = do
  _ ← ensure (is_of (payload_tenant event.payload) event.tenant_id) run_tenant
  _ ← ensure (is_of (payload_conversation event.payload) conversation_id) run_conversation
  ensure (fits_user event.user_id (payload_user event.payload)) run_user

-- The variables of the loop.
pub record Progress : Type 0 where
  pub memory : ConversationMemory
  pub replayed : ℕ
  pub replayed_runs : ℕ
  pub ignored : ℕ

-- `raise` of what the memory raised
abbrev pub raised_by_memory :
    Progress → Result MemoryError ConversationMemory → Result ReplayError Progress
raised_by_memory p (err raised) = err (memory_error raised)
raised_by_memory p (ok memory) = ok (record p { memory = memory; replayed = p.replayed + 1 })

-- `state.last_intent = IntentType(primary_intent)`
abbrev pub with_intent :
    ConversationMemory
    → String
    → ConversationState
    → Option IntentType
    → Result ReplayError ConversationMemory
with_intent memory conversation_id state none = err invalid_intent
with_intent memory conversation_id state (some intent) =
    ok (with_state memory conversation_id (record state { last_intent = some intent }))

-- `if state and primary_intent:`
abbrev pub set_intent :
    ConversationMemory
    → String
    → Option ConversationState
    → Option String
    → Result ReplayError ConversationMemory
set_intent memory conversation_id none primary = ok memory
set_intent memory conversation_id (some state) none = ok memory
set_intent memory conversation_id (some state) (some primary) =
    if is_blank primary
    then ok memory
    else with_intent memory conversation_id state (intent_of primary)

module _ (find_order : String → Option String) (now : ℕ) (conversation_id : String) where
  unfoldable pub replay_message : Progress → StoredEvent → Result ReplayError Progress
  replay_message p event = do
    message ← validated_message event.payload
    _ ← validate_message_event event message
    raised_by_memory p (add_message find_order p.memory message now)

  unfoldable pub replay_run : Progress → StoredEvent → Result ReplayError Progress
  replay_run p event = do
    _ ← validate_run_event event conversation_id
    memory ←
        set_intent p.memory conversation_id (get_key p.memory.states conversation_id)
          (payload_intent event.payload)
    ok (record p { memory = memory; replayed_runs = p.replayed_runs + 1 })

  -- The body of the loop.
  unfoldable pub replay_event : Progress → StoredEvent → Result ReplayError Progress
  replay_event p event =
      if not (is_of event.conversation_id conversation_id)
      then err foreign_event
      else if is_some (after_prefix "message." event.event_type)
      then replay_message p event
      else if event.event_type == "agent.run.completed"
      then replay_run p event
      else ok (record p { ignored = p.ignored + 1 })

  unfoldable pub replay_loop : Progress → List StoredEvent → Result ReplayError Progress
  replay_loop p [] = ok p
  replay_loop p (event ∷ events) = do next ← replay_event p event; replay_loop next events

-- MemoryReplayResult
pub record MemoryReplayResult : Type 0 where
  pub conversation_id : String
  pub state : ConversationState
  pub event_count : ℕ
  pub replayed_message_count : ℕ
  pub replayed_run_count : ℕ
  pub ignored_event_count : ℕ

-- The result, when a message was replayed.
abbrev pub replay_result :
    String → ℕ → Progress → Option ConversationState → Result ReplayError MemoryReplayResult
replay_result conversation_id count p none = err no_messages
replay_result conversation_id count p (some state) = ok record {
  conversation_id = conversation_id;
  state = state;
  event_count = count;
  replayed_message_count = p.replayed;
  replayed_run_count = p.replayed_runs;
  ignored_event_count = p.ignored;
}

abbrev pub no_progress : Progress
no_progress = record { memory = empty_memory; replayed = 0; replayed_runs = 0; ignored = 0 }

-- `if not conversation_id: raise`
unfoldable pub conversation_of : Option String → Result ReplayError String
conversation_of none = err no_conversation_id
conversation_of (some conversation_id) =
    if is_blank conversation_id then err no_conversation_id else ok conversation_id

-- replay_conversation_memory
unfoldable pub replay_conversation_memory :
    (String → Option String) → ℕ → List StoredEvent → Result ReplayError MemoryReplayResult
replay_conversation_memory find_order now [] = err no_events
replay_conversation_memory find_order now (event ∷ events) = do
  conversation_id ← conversation_of event.conversation_id
  p ← replay_loop find_order now conversation_id no_progress (event ∷ events)
  replay_result conversation_id (length (event ∷ events)) p
      (get_key p.memory.states conversation_id)
