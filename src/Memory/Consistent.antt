-- ===== src/Memory/Consistent.antt =====
-- The memory of a process agrees with the events of its store: what is kept of each conversation in
-- memory is what replay makes of its events.
use mathlib.Core.List.{append-nil}
use production_support_agent.Memory.Replayed.{replay_loop-append}
use production_support_agent.Memory.Replay.{Progress, replay_loop, no_progress}
use production_support_agent.Memory.Recall.{view}
use production_support_agent.Memory.State.{ConversationMemory, ConversationState}
use production_support_agent.Memory.Turns.{System}
use production_support_agent.Memory.Events.{StoredEvent, is_memory_event, event_time}
use production_support_agent.Prelude.{
  ℕ, ◌≤◌, String, ◌≡◌, sym, ap, ◌∙◌, Bool, Option, some, List, [], ◌++◌, nat_eq, string_eq, All, ok,
  select, Ascending, select-append, value_or,
}

-- The events of a conversation that replay reads, in rowid order.
abbrev pub events_of : String → String → List StoredEvent → List StoredEvent
events_of tenant_id conversation_id rows = select (is_memory_event tenant_id conversation_id) rows

module _ (find_order : String → Option String) (keep : Bool) where
  -- Replay of a conversation's events succeeds at any time and keeps `core`, and so does the memory, if
  -- it has the conversation.
  pub record IsRecalled (tenant_id : String) (rows : List StoredEvent) (memory : ConversationMemory)
      (conversation_id : String) : Type 0 where
    pub core : Option ConversationState
    pub replays :
        (now : ℕ)
        → (p : Progress) × (replay_loop find_order now conversation_id no_progress
              (events_of tenant_id conversation_id rows)
            ≡ ok p)
          × (view keep conversation_id p.memory ≡ core)
    pub agrees :
        (state : ConversationState)
        → view keep conversation_id memory ≡ some state
        → core ≡ some state
    pub owned : (state : ConversationState) → core ≡ some state → state.tenant_id ≡ tenant_id

  -- Another memory that keeps no more than is known.
  pub IsRecalled-memory :
      (tenant_id : String) (rows : List StoredEvent) (memory later : ConversationMemory)
      (conversation_id : String) (h : IsRecalled tenant_id rows memory conversation_id)
      → ((state : ConversationState)
          → view keep conversation_id later ≡ some state
          → h.core ≡ some state)
      → IsRecalled tenant_id rows later conversation_id
  IsRecalled-memory tenant_id rows memory later conversation_id h agrees = record {
    core = h.core;
    replays = h.replays;
    agrees = agrees;
    owned = h.owned;
  }

  -- Events of other conversations and a memory that keeps the same of this one.
  pub IsRecalled-unchanged :
      (tenant_id : String) (rows es : List StoredEvent) (memory later : ConversationMemory)
      (conversation_id : String)
      → events_of tenant_id conversation_id es ≡ []
      → view keep conversation_id later ≡ view keep conversation_id memory
      → IsRecalled tenant_id rows memory conversation_id
      → IsRecalled tenant_id (rows ++ es) later conversation_id
  IsRecalled-unchanged tenant_id rows es memory later conversation_id no_more same h = record {
    core = h.core;
    replays = λ now. (
      (h.replays now).0,
      ap (replay_loop find_order now conversation_id no_progress) (
            select-append (is_memory_event tenant_id conversation_id) rows es
            ∙ ap (λ more. events_of tenant_id conversation_id rows ++ more) no_more
            ∙ append-nil (events_of tenant_id conversation_id rows))
          ∙ (h.replays now).1,
      (h.replays now).2,
    );
    agrees = λ state e. h.agrees state (sym same ∙ e);
    owned = h.owned;
  }

  -- What new events of the conversation make of what is kept, in replay and in memory alike.
  pub IsRecalled-extended :
      (tenant_id : String) (rows es : List StoredEvent) (memory later : ConversationMemory)
      (conversation_id : String) (next : ConversationState)
      (h : IsRecalled tenant_id rows memory conversation_id)
      → ((now : ℕ) (p : Progress)
          → view keep conversation_id p.memory ≡ h.core
          → (q : Progress) × (replay_loop find_order now conversation_id p
                (events_of tenant_id conversation_id es)
              ≡ ok q)
            × (view keep conversation_id q.memory ≡ some next))
      → view keep conversation_id later ≡ some next
      → next.tenant_id ≡ tenant_id
      → IsRecalled tenant_id (rows ++ es) later conversation_id
  IsRecalled-extended tenant_id rows es memory later conversation_id next h more seen mine =
      record {
        core = some next;
        replays = λ now.
            let before_them = h.replays now in
            let after_them = more now before_them.0 before_them.2 in
            (
              after_them.0,
              ap (replay_loop find_order now conversation_id no_progress)
                    (select-append (is_memory_event tenant_id conversation_id) rows es)
                  ∙ replay_loop-append find_order now conversation_id no_progress before_them.0
                      (events_of tenant_id conversation_id rows)
                      (events_of tenant_id conversation_id es) before_them.1
                  ∙ after_them.1,
              after_them.2,
            );
        agrees = λ state e. sym seen ∙ e;
        owned = λ state e. ap (λ o. (value_or o next).tenant_id) (sym e) ∙ mine;
      }

  -- The rows of a store, none later than a time, and a memory that agrees with them.
  pub record IsConsistent (clock : ℕ) (s : System) (rows : List StoredEvent) : Type 0 where
    pub stored : s.event_store ≡ some rows
    pub in_order : Ascending event_time rows
    pub past : All (λ e. e.created_at ≤ clock) rows
    pub recalled : (conversation_id : String) → IsRecalled s.tenant_id rows s.memory conversation_id
