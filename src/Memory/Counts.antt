-- ===== src/Memory/Counts.antt =====
-- memory/replay.py: every event is counted once.
use production_support_agent.Memory.State.{
  ConversationState, MemoryError, ConversationMemory, add_message,
}
use production_support_agent.Memory.Events.{StoredEvent, is_of}
use production_support_agent.Memory.Replay.{
  Progress, MemoryReplayResult, replay_event, replay_loop, replay_conversation_memory, ReplayError,
  replay_message, replay_run, replay_result, conversation_of, raised_by_memory, no_progress,
  validated_message, validate_message_event, validate_run_event, set_intent, payload_intent,
}
use production_support_agent.Prelude.{
  ℕ, ◌+◌, String, ◌≡◌, refl, sym, ap, ◌∙◌, subst, inl, inr, Option, none, some, List, [], ◌∷◌,
  arith, ◌==◌, nat_eq, string_eq, Bool-cases, is_some, length, ok, err, Result, bind-ok,
  after_prefix, get_key,
}

abbrev total : Progress → ℕ
total p = p.replayed + p.replayed_runs + p.ignored

ok_path : {p q : Progress} → ◌≡◌ {A = Result ReplayError Progress} (ok p) (ok q) → p ≡ q
ok_path e = ground (arith, e)

result_path :
    {p q : MemoryReplayResult}
    → ◌≡◌ {A = Result ReplayError MemoryReplayResult} (ok p) (ok q)
    → p ≡ q
result_path e = ground (arith, e)

raised_by_memory-total :
    (p q : Progress) (result : Result MemoryError ConversationMemory)
    → raised_by_memory p result ≡ ok q
    → total q ≡ total p + 1
raised_by_memory-total p q (err raised) h = absurd (ground (arith, h))
raised_by_memory-total p q (ok memory) h = ap total (sym (ok_path h)) ∙ omega arith

module _ (find_order : String → Option String) (now : ℕ) (conversation_id : String) where
  replay_event-total :
      (p q : Progress) (e : StoredEvent)
      → replay_event find_order now conversation_id p e ≡ ok q
      → total q ≡ total p + 1
  unfolding replay_event replay_message replay_run
  replay_event-total p q e h = elim (Bool-cases (is_of e.conversation_id conversation_id)) [
    | inr other ↦ absurd (ground (arith, other, h))
    | inl own ↦ elim (Bool-cases (is_some (after_prefix "message." e.event_type))) [
      | inl message ↦
          bind-ok (validated_message e.payload) _ q (rw (own, message) at h) λ m validated h1.
            bind-ok (validate_message_event e m) _ q h1
              λ u valid h2. raised_by_memory-total p q (add_message find_order p.memory m now) h2
      | inr other ↦ elim (Bool-cases (e.event_type == "agent.run.completed")) [
        | inl run ↦
            bind-ok (validate_run_event e conversation_id) _ q (rw (own, other, run) at h)
              λ u valid h1.
                bind-ok
                  (set_intent p.memory conversation_id (get_key p.memory.states conversation_id)
                    (payload_intent e.payload))
                  _ q h1 λ memory set h2. ap total (sym (ok_path h2)) ∙ omega arith
        | inr ignored ↦ ap total (sym (ok_path (rw (own, other, ignored) at h))) ∙ omega arith
      ]
    ]
  ]

  replay_loop-total :
      (p q : Progress) (events : List StoredEvent)
      → replay_loop find_order now conversation_id p events ≡ ok q
      → total q ≡ total p + length events
  unfolding replay_loop
  replay_loop-total p q [] h = ap total (sym (ok_path h)) ∙ omega arith
  replay_loop-total p q (e ∷ events) h =
      bind-ok (replay_event find_order now conversation_id p e) _ q h λ r first rest.
        omega (arith, replay_event-total p r e first, replay_loop-total r q events rest)

replay_result-counts :
    (conversation_id : String) (count : ℕ) (p : Progress) (found : Option ConversationState)
    (r : MemoryReplayResult)
    → total p ≡ count
    → replay_result conversation_id count p found ≡ ok r
    → (r.replayed_message_count + r.replayed_run_count + r.ignored_event_count ≡ r.event_count)
      × (r.event_count ≡ count)
replay_result-counts conversation_id count p none r e h = absurd (ground (arith, h))
replay_result-counts conversation_id count p (some state) r e h =
    subst
      (λ x.
        (x.replayed_message_count + x.replayed_run_count + x.ignored_event_count ≡ x.event_count)
        × (x.event_count ≡ count))
      (result_path h) (e, refl)

-- When replay_conversation_memory returns, the messages, the runs and the ignored events that it
-- counted add up to the number of events, and that is the length of the list.
pub replay-counts :
    (find_order : String → Option String) (now : ℕ) (events : List StoredEvent)
    (r : MemoryReplayResult)
    → replay_conversation_memory find_order now events ≡ ok r
    → (r.replayed_message_count + r.replayed_run_count + r.ignored_event_count ≡ r.event_count)
      × (r.event_count ≡ length events)
unfolding replay_conversation_memory
replay-counts find_order now [] r h = absurd (ground (arith, h))
replay-counts find_order now (e ∷ es) r h =
    bind-ok (conversation_of e.conversation_id) _ r h λ c named h1.
      bind-ok (replay_loop find_order now c no_progress (e ∷ es)) _ r h1 λ p looped h2.
        replay_result-counts c (length (e ∷ es)) p (get_key p.memory.states c) r
          (replay_loop-total find_order now c no_progress p (e ∷ es) looped ∙ omega arith) h2
