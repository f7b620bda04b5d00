-- ===== src/Memory/Examples.antt =====
-- The witnesses of the properties of memory.
use production_support_agent.Memory.Counts.{replay-counts}
use production_support_agent.Memory.Replay.{
  conversation_of, fits_user, intent_of, payload_conversation, payload_intent, payload_tenant,
  payload_user, replay_conversation_memory, replay_event, replay_loop, replay_message, replay_run,
  validate_message_event, validate_run_event, validated_message, MemoryReplayResult,
}
use production_support_agent.Agent.Routing.{intent_value}
use production_support_agent.Memory.Foreign.{foreign_refused}
use production_support_agent.Memory.Recall.{forget}
use production_support_agent.Memory.Events.{
  StoredEvent, message_event, list_conversation_memory_events, is_memory_event, monitor_event,
  run_event,
}
use production_support_agent.Memory.State.{
  ConversationState, opened, add_message, get_or_create, checked_owner, facts_after,
  recent_concerns, remember, role_value, update_thread_state,
}
use production_support_agent.Models.{billing}
use production_support_agent.Memory.Restart.{IsOrderly, first_process, kept_after, restart_recalls}
use production_support_agent.Memory.Turns.{
  ChatTurn, ProcessStep, System, message_step, run_steps, restart_step, run_step, handle_message,
  hydrate_memory_from_events, permission, loaded, restarted, user_message, from_store,
  restored_from, final_events, restored,
}
use production_support_agent.Prelude.{
  ℕ, ◌+◌, String, ◌≡◌, refl, true, false, Option, none, some, List, [], ◌∷◌, arith, ◌==◌, nat_eq,
  string_eq, is_some, length, find, ok, get_key, value_or-some, value_or, sort_by, select, put_key,
  contains, last_elements, delete_where, after_prefix, join_text, occurs_in, take_text,
}

abbrev no_order : String → Option String
no_order content = none

abbrev turn_at : ℕ → String → Option String → ChatTurn
turn_at now user_id answer = record {
  conversation_id = "c";
  user_id = user_id;
  started_at = now;
  finished_at = now + 1;
  message_id = "m";
  metadata = "{}";
  content = "hello";
  intent = billing;
  answer = answer;
  answer_id = "a";
  answer_metadata = "{}";
  run_id = "r";
  monitor_dump = some "{}";
}

-- Two turns with a restart between them.
abbrev three_steps : List ProcessStep
three_steps =
    message_step (turn_at 10 "u" (some "hi"))
    ∷ restart_step
    ∷ message_step (turn_at 20 "u" (some "yes"))
    ∷ []

three_steps-IsOrderly : IsOrderly true 0 three_steps
three_steps-IsOrderly =
    (refl, ground arith, ground arith, λ e. refl, (refl, ground arith, ground arith, λ e. refl, tt))

abbrev run_three : System
run_three = run_steps no_order (first_process "t") three_steps

abbrev run_state : ConversationState
run_state = value_or (get_key run_three.memory.states "c") (opened none "t" "c" "u" 0)

in_memory : is_some (get_key run_three.memory.states "c") ≡ true
unfolding get_key find run_steps run_step handle_message hydrate_memory_from_events loaded
    from_store restored_from list_conversation_memory_events sort_by select add_message
    get_or_create checked_owner opened put_key intent_value is_memory_event message_event
    monitor_event run_event conversation_of fits_user intent_of payload_conversation payload_intent
    payload_tenant payload_user replay_conversation_memory replay_event replay_loop replay_message
    replay_run validate_message_event validate_run_event validated_message facts_after
    recent_concerns remember role_value update_thread_state final_events restored contains
    last_elements delete_where after_prefix join_text occurs_in take_text
in_memory = refl

other_user : (run_state.user_id == "v") ≡ false
unfolding get_key find run_steps run_step handle_message hydrate_memory_from_events loaded
    from_store restored_from list_conversation_memory_events sort_by select add_message
    get_or_create checked_owner opened put_key intent_value is_memory_event message_event
    monitor_event run_event conversation_of fits_user intent_of payload_conversation payload_intent
    payload_tenant payload_user replay_conversation_memory replay_event replay_loop replay_message
    replay_run validate_message_event validate_run_event validated_message facts_after
    recent_concerns remember role_value update_thread_state final_events restored contains
    last_elements delete_where after_prefix join_text occurs_in take_text
other_user = refl

run_found : get_key run_three.memory.states "c" ≡ some run_state
run_found = value_or-some (get_key run_three.memory.states "c") (opened none "t" "c" "u" 0) known
  where
    known : is_some (get_key run_three.memory.states "c") ≡ true
    known = in_memory

restart_recalls_example :
    kept_after true "c"
      (hydrate_memory_from_events no_order (restarted run_three) "c" run_state.user_id none 50)
    ≡ ok (some (forget true run_state))
restart_recalls_example =
    restart_recalls no_order true "t" three_steps "c" run_state 50 three_steps-IsOrderly refl
      run_found

foreign_refused_example :
    (handle_message no_order run_three (turn_at 30 "v" none) ≡ (run_three, some permission))
    × (handle_message no_order (restarted run_three) (turn_at 30 "v" none)
        ≡ (restarted run_three, some permission))
foreign_refused_example =
    foreign_refused no_order "t" three_steps (turn_at 30 "v" none) run_state plain refl run_found
      other_user
  where
    plain : IsOrderly false 0 three_steps
    plain = (
      refl,
      ground arith,
      ground arith,
      λ e. refl,
      (refl, ground arith, ground arith, λ e. refl, tt),
    )

-- The message of a user, as an event, and the result of its replay.
abbrev one_event : List StoredEvent
one_event = message_event (user_message "t" (turn_at 10 "u" none)) 10 ∷ []

abbrev one_result : MemoryReplayResult
one_result = record {
  conversation_id = "c";
  state =
      remember no_order (opened none "t" "c" "u" 50) (user_message "t" (turn_at 10 "u" none)) 50;
  event_count = 1;
  replayed_message_count = 1;
  replayed_run_count = 0;
  ignored_event_count = 0;
}

one_replayed : replay_conversation_memory no_order 50 one_event ≡ ok one_result
unfolding get_key find run_steps run_step handle_message hydrate_memory_from_events loaded
    from_store restored_from list_conversation_memory_events sort_by select add_message
    get_or_create checked_owner opened put_key intent_value is_memory_event message_event
    monitor_event run_event conversation_of fits_user intent_of payload_conversation payload_intent
    payload_tenant payload_user replay_conversation_memory replay_event replay_loop replay_message
    replay_run validate_message_event validate_run_event validated_message facts_after
    recent_concerns remember role_value update_thread_state final_events restored contains
    last_elements delete_where after_prefix join_text occurs_in take_text
one_replayed = refl

replay-counts_example :
    (one_result.replayed_message_count + one_result.replayed_run_count
        + one_result.ignored_event_count
      ≡ one_result.event_count)
    × (one_result.event_count ≡ length one_event)
replay-counts_example = replay-counts no_order 50 one_event one_result one_replayed
