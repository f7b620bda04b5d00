-- ===== src/Memory/Replayed.antt =====
-- memory/replay.py on the events that the orchestrator appends.
use production_support_agent.Memory.Turns.{trace_payload, ChatTurn}
use production_support_agent.Memory.Recall.{memory_after, IsOwned, view, add_message-IsOwned}
use production_support_agent.Memory.State.{Message, ConversationState, with_state, role_value}
use production_support_agent.Memory.Events.{StoredEvent, message_event, run_event}
use production_support_agent.Models.{IntentType}
use production_support_agent.Agent.Routing.{intent_value}
use production_support_agent.Memory.Replay.{
  intent_of, fits_user, replay_loop, Progress, replay_event, ReplayError, replay_message,
  replay_run, validated_message, validate_run_event, validate_message_event, payload_tenant,
  payload_conversation, payload_user, payload_intent, raised_by_memory,
}
use production_support_agent.Prelude.{
  ℕ, ◌+◌, String, ◌≡◌, refl, ap, ◌∙◌, inl, inr, Bool, true, false, Option, some, List, [], ◌∷◌,
  ◌++◌, arith, eq_refl, nat_eq, string_eq, Bool-cases, ok, Result, is_blank, bind-ok, after-ok,
  after_prefix-before, after_prefix, get_key,
}
use production_support_agent.Models.{
  order_status, refund_or_return, billing, technical_issue, complaint, account_security,
  general_question, unknown,
}

intent_of-value : (i : IntentType) → intent_of (intent_value i) ≡ some i
unfolding intent_of intent_value
intent_of-value order_status = refl
intent_of-value refund_or_return = refl
intent_of-value billing = refl
intent_of-value technical_issue = refl
intent_of-value complaint = refl
intent_of-value account_security = refl
intent_of-value general_question = refl
intent_of-value unknown = refl

intent_value-filled : (i : IntentType) → is_blank (intent_value i) ≡ false
unfolding intent_value
intent_value-filled order_status = refl
intent_value-filled refund_or_return = refl
intent_value-filled billing = refl
intent_value-filled technical_issue = refl
intent_value-filled complaint = refl
intent_value-filled account_security = refl
intent_value-filled general_question = refl
intent_value-filled unknown = refl

fits_user_own : (u : String) → fits_user (some u) (some u) ≡ true
unfolding fits_user
fits_user_own u = elim (Bool-cases (is_blank u)) [
  | inl t ↦ rw t refl
  | inr t ↦ rw (t, eq_refl u) refl
]

module _ (find_order : String → Option String) (now : ℕ) where
  -- The events of a conversation are replayed one after the other.
  pub replay_loop-append :
      (conversation_id : String) (p q : Progress) (xs ys : List StoredEvent)
      → replay_loop find_order now conversation_id p xs ≡ ok q
      → replay_loop find_order now conversation_id p (xs ++ ys)
        ≡ replay_loop find_order now conversation_id q ys
  unfolding replay_loop
  replay_loop-append conversation_id p q [] ys h =
      ap (λ r. replay_loop find_order now conversation_id r ys) (ok_path h)
    where
      ok_path : {a b : Progress} → ◌≡◌ {A = Result ReplayError Progress} (ok a) (ok b) → a ≡ b
      ok_path e = ground (arith, e)
  replay_loop-append conversation_id p q (x ∷ xs) ys h =
      bind-ok (replay_event find_order now conversation_id p x) _ q h
        λ r first rest. after-ok _ first ∙ replay_loop-append conversation_id r q xs ys rest

  abbrev pub progress_message : Progress → Message → Progress
  progress_message p m = record p {
    memory = memory_after find_order p.memory m now;
    replayed = p.replayed + 1;
  }

  pub replay_message_event :
      (keep : Bool) (p : Progress) (m : Message) (at : ℕ)
      → IsOwned m (view keep m.conversation_id p.memory)
      → replay_event find_order now m.conversation_id p (message_event m at)
        ≡ ok (progress_message p m)
  unfolding replay_event message_event replay_message validated_message validate_message_event
  replay_message_event keep p m at owned =
      rw
        (
          eq_refl m.conversation_id,
          after_prefix-before "message." (role_value m.role),
          eq_refl m.tenant_id,
          fits_user_own m.user_id,
        )
        (ap (raised_by_memory p) (add_message-IsOwned find_order keep p.memory m now owned))

  abbrev pub progress_run : Progress → String → ConversationState → IntentType → Progress
  progress_run p conversation_id state intent = record p {
    memory = with_state p.memory conversation_id (record state { last_intent = some intent });
    replayed_runs = p.replayed_runs + 1;
  }

  pub replay_run_event :
      (p : Progress) (tenant_id : String) (turn : ChatTurn) (state : ConversationState)
      → get_key p.memory.states turn.conversation_id ≡ some state
      → replay_event find_order now turn.conversation_id p
          (run_event (trace_payload tenant_id turn) turn.run_id turn.finished_at)
        ≡ ok (progress_run p turn.conversation_id state turn.intent)
  unfolding replay_event run_event replay_run validate_run_event payload_tenant payload_conversation
      payload_user payload_intent after_prefix
  replay_run_event p tenant_id turn state found =
      rw
        (
          eq_refl turn.conversation_id,
          eq_refl tenant_id,
          fits_user_own turn.user_id,
          found,
          intent_value-filled turn.intent,
          intent_of-value turn.intent,
        )
        refl
