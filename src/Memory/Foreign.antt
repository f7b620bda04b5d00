-- ===== src/Memory/Foreign.antt =====
-- agent/orchestrator.py: a conversation is closed to other users.
use production_support_agent.Memory.Restart.{IsOrderly, first_process, hydrate-known}
use production_support_agent.Memory.Recall.{forget}
use production_support_agent.Memory.Replay.{MemoryReplayResult}
use production_support_agent.Memory.State.{ConversationState}
use production_support_agent.Memory.Turns.{
  restored, handle_message, System, hydrate_memory_from_events, loaded, ProcessStep, ChatTurn,
  restarted, permission, run_steps, hydrated,
}
use production_support_agent.Prelude.{
  String, ◌≡◌, ap, ◌∙◌, false, Option, none, some, List, arith, ◌==◌, nat_eq, string_eq, ok, err,
  is_blank, get_key,
}

module _ (find_order : String → Option String) where
  refused-restored :
      (s : System) (conversation_id user_id : String) (state : ConversationState)
      (r : MemoryReplayResult)
      → (state.user_id == user_id) ≡ false
      → forget false r.state ≡ forget false state
      → restored (restarted s) conversation_id user_id (ok r) ≡ err permission
  unfolding restored
  refused-restored s conversation_id user_id state r other same =
      let not_mine : (r.state.user_id == user_id) ≡ false =
        ap {A = ConversationState} (λ x. x.user_id == user_id) same ∙ other in
      ground (arith, not_mine)

  -- After any turns and restarts of a process on an empty store, in the order of their times and in
  -- conversations with names, a message of another user in a conversation that is in memory raises the
  -- PermissionError and changes neither the memory nor the store, and so it does in a new process on
  -- the same store, which does not have the conversation in memory.
  pub foreign_refused :
      (tenant_id : String) (steps : List ProcessStep) (turn : ChatTurn) (state : ConversationState)
      → IsOrderly false 0 steps
      → is_blank turn.conversation_id ≡ false
      → get_key
          (run_steps find_order (first_process tenant_id) steps).memory.states
          turn.conversation_id
        ≡ some state
      → (state.user_id == turn.user_id) ≡ false
      → let s = run_steps find_order (first_process tenant_id) steps in
        (handle_message find_order s turn ≡ (s, some permission))
        × (handle_message find_order (restarted s) turn ≡ (restarted s, some permission))
  unfolding handle_message hydrate_memory_from_events loaded
  foreign_refused tenant_id steps turn state orderly named found other =
      let s = run_steps find_order (first_process tenant_id) steps in
      let known =
        hydrate-known find_order false tenant_id steps turn.conversation_id turn.user_id state
          turn.started_at orderly named found in
      let refused : loaded find_order s turn.conversation_id turn.user_id none turn.started_at
            (some state)
          ≡ err permission =
        ground (arith, other) in
      (
        ap (hydrated find_order s turn) (
            ap (loaded find_order s turn.conversation_id turn.user_id none turn.started_at) found
            ∙ refused),
        ap (hydrated find_order (restarted s) turn) (
            known.1.1
            ∙ refused-restored s turn.conversation_id turn.user_id state known.1.0 other known.1.2),
      )
