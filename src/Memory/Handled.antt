-- ===== src/Memory/Handled.antt =====
-- A sequence of turns and restarts keeps the memory and the store in agreement.
use production_support_agent.Memory.Answered.{
  intent_memory, asked_rows, failed-IsRecalled, final_memory, final-IsRecalled, before_final,
  asked-belongs,
}
use production_support_agent.Memory.Recall.{add_message-IsOwned, IsOwned}
use production_support_agent.Memory.Appended.{same_time-Ascending, asked_event, final_at}
use production_support_agent.Memory.State.{add_message, opened}
use production_support_agent.Memory.Hydrated.{IsReady, hydrate-IsReady}
use production_support_agent.Memory.Consistent.{IsConsistent, IsRecalled}
use production_support_agent.Memory.Events.{StoredEvent, event_time, message_event}
use production_support_agent.Memory.Turns.{
  System, ChatTurn, answered, remembered, user_message, appended, final_events, finalized,
  answer_message, TurnError, handle_message, hydrate_memory_from_events, hydrated,
}
use production_support_agent.Prelude.{
  ℕ, ◌≤◌, String, ◌≡◌, refl, sym, ap, subst, inl, inr, Bool, true, false, false≢true, Option, none,
  some, List, [], ◌∷◌, ◌++◌, arith, nat_eq, string_eq, Bool-cases, is_some, All, ok, err, Result,
  Ascending, All-map, le_trans, append-Ascending, All-append, is_blank,
}

module _ (find_order : String → Option String) (keep : Bool) where
  -- Rows that the system agrees with.
  abbrev pub Agrees : ℕ → System → Type 0
  Agrees clock s = (rows : List StoredEvent) × IsConsistent find_order keep clock s rows

  pub IsConsistent-later :
      (clock later : ℕ) (s : System) (rows : List StoredEvent)
      → clock ≤ later
      → IsConsistent find_order keep clock s rows
      → IsConsistent find_order keep later s rows
  IsConsistent-later clock later s rows order h = record {
    stored = h.stored;
    in_order = h.in_order;
    past =
        All-map (λ e. e.created_at ≤ clock) (λ e. e.created_at ≤ later) rows
          (λ e k. le_trans k order) h.past;
    recalled = h.recalled;
  }

  -- Events at a time that is no earlier than the clock, at the end of the table.
  appended-IsConsistent :
      (clock at : ℕ) (s after : System) (rows es : List StoredEvent)
      → clock ≤ at
      → Ascending event_time rows
      → All (λ e. e.created_at ≤ clock) rows
      → All (λ e. e.created_at ≡ at) es
      → after.event_store ≡ some (rows ++ es)
      → ((conversation_id : String)
          → IsRecalled find_order keep after.tenant_id (rows ++ es) after.memory conversation_id)
      → IsConsistent find_order keep at after (rows ++ es)
  appended-IsConsistent clock at s after rows es order in_order past now stored recalled = record {
    stored = stored;
    in_order = append-Ascending event_time rows es in_order (same_time-Ascending at es now) (
        All-map (λ e. e.created_at ≤ clock) (λ e. All (λ y. e.created_at ≤ y.created_at) es) rows
          (λ e k.
            All-map (λ y. y.created_at ≡ at) (λ y. e.created_at ≤ y.created_at) es
              (λ y l. subst (λ t. e.created_at ≤ t) (sym l) (le_trans k order)) now)
          past);
    past =
        All-append (λ e. e.created_at ≤ at) rows es
          (All-map (λ e. e.created_at ≤ clock) (λ e. e.created_at ≤ at) rows
            (λ e k. le_trans k order) past)
          (All-map (λ e. e.created_at ≡ at) (λ e. e.created_at ≤ at) es (λ e k. ground (arith, k))
            now);
    recalled = recalled;
  }

  module _ (clock : ℕ) (s : System) (rows : List StoredEvent) (turn : ChatTurn)
      (ready : IsReady find_order keep clock s rows turn.conversation_id turn.user_id)
      (begins : clock ≤ turn.started_at) (ends : turn.started_at ≤ turn.finished_at) where
    -- The system behind the user's message.
    abbrev asked_system : System
    asked_system = record s {
      memory = intent_memory find_order keep clock s rows turn ready;
      event_store = appended s.event_store (asked_event s.tenant_id turn ∷ []);
    }

    asked-in_order :
        Ascending event_time (asked_rows find_order keep clock s rows turn ready)
        × All
            (λ e. e.created_at ≤ turn.started_at)
            (asked_rows find_order keep clock s rows turn ready)
    unfolding message_event
    asked-in_order = (
      append-Ascending event_time rows (asked_event s.tenant_id turn ∷ []) ready.consistent.in_order
          (tt, tt)
          (All-map (λ e. e.created_at ≤ clock) (λ e. (e.created_at ≤ turn.started_at) × Unit {0})
            rows (λ e k. (le_trans k begins, tt)) ready.consistent.past),
      All-append (λ e. e.created_at ≤ turn.started_at) rows (asked_event s.tenant_id turn ∷ [])
          (All-map (λ e. e.created_at ≤ clock) (λ e. e.created_at ≤ turn.started_at) rows
            (λ e k. le_trans k begins) ready.consistent.past)
          (ground arith, tt),
    )

    answered-Agrees :
        (answer : Option String)
        → (keep ≡ true → is_some answer ≡ true)
        → Agrees turn.finished_at (answered find_order asked_system turn answer).0
    unfolding opened
    answered-Agrees none counts = (
      asked_rows find_order keep clock s rows turn ready,
      record {
        stored = ap (λ o. appended o (asked_event s.tenant_id turn ∷ [])) ready.consistent.stored;
        in_order = asked-in_order.0;
        past =
            All-map (λ e. e.created_at ≤ turn.started_at) (λ e. e.created_at ≤ turn.finished_at)
              (asked_rows find_order keep clock s rows turn ready) (λ e k. le_trans k ends)
              asked-in_order.1;
        recalled =
            failed-IsRecalled find_order keep clock s rows turn ready
              (elim (Bool-cases keep) [ inl t ↦ absurd (false≢true (counts t)) | inr t ↦ t ]);
      },
    )
    answered-Agrees (some answer) counts =
        let before_rows = asked_rows find_order keep clock s rows turn ready in
        let es = final_events s.tenant_id turn answer in
        let after = record asked_system {
          memory = final_memory find_order keep clock s rows turn ready answer;
          event_store = appended asked_system.event_store es;
        } in
        let consistent =
          appended-IsConsistent turn.started_at turn.finished_at asked_system after before_rows es
            ends asked-in_order.0 asked-in_order.1 (final_at s.tenant_id turn answer)
            (ap (λ o. appended (appended o (asked_event s.tenant_id turn ∷ [])) es)
              ready.consistent.stored)
            (final-IsRecalled find_order keep clock s rows turn ready answer) in
        subst (λ r. Agrees turn.finished_at (finalized find_order asked_system turn answer r).0)
          (sym (
            add_message-IsOwned find_order keep asked_system.memory
              (answer_message s.tenant_id turn answer) turn.finished_at
              (subst (IsOwned (answer_message s.tenant_id turn answer))
                (sym (before_final find_order keep clock s rows turn ready answer))
                (asked-belongs find_order keep clock s rows turn ready))))
          (before_rows ++ es, consistent)

    pub remembered-Agrees :
        (keep ≡ true → is_some turn.answer ≡ true)
        → Agrees turn.finished_at
            (remembered find_order s turn
              (add_message find_order s.memory (user_message s.tenant_id turn) turn.started_at)).0
    remembered-Agrees counts =
        subst (λ r. Agrees turn.finished_at (remembered find_order s turn r).0)
          (sym (
            add_message-IsOwned find_order keep s.memory (user_message s.tenant_id turn)
              turn.started_at ready.mine))
          (answered-Agrees turn.answer counts)

  hydrated-Agrees :
      (clock : ℕ) (s : System) (rows : List StoredEvent) (turn : ChatTurn)
      (result : Result TurnError System)
      → IsConsistent find_order keep clock s rows
      → is_blank turn.conversation_id ≡ false
      → clock ≤ turn.started_at
      → turn.started_at ≤ turn.finished_at
      → (keep ≡ true → is_some turn.answer ≡ true)
      → hydrate_memory_from_events find_order s turn.conversation_id turn.user_id none
          turn.started_at
        ≡ result
      → Agrees turn.finished_at (hydrated find_order s turn result).0
  hydrated-Agrees clock s rows turn (err raised) h named begins ends counts e =
      (rows, IsConsistent-later clock turn.finished_at s rows (le_trans begins ends) h)
  hydrated-Agrees clock s rows turn (ok after) h named begins ends counts e =
      remembered-Agrees clock after rows turn
        (hydrate-IsReady find_order keep clock s after rows turn.conversation_id turn.user_id
          turn.started_at h named e)
        begins ends counts

  -- A turn, whatever it ends in, keeps the agreement.
  pub handle_message-Agrees :
      (clock : ℕ) (s : System) (turn : ChatTurn)
      → Agrees clock s
      → is_blank turn.conversation_id ≡ false
      → clock ≤ turn.started_at
      → turn.started_at ≤ turn.finished_at
      → (keep ≡ true → is_some turn.answer ≡ true)
      → Agrees turn.finished_at (handle_message find_order s turn).0
  unfolding handle_message
  handle_message-Agrees clock s turn h named begins ends counts =
      hydrated-Agrees clock s h.0 turn
        (hydrate_memory_from_events find_order s turn.conversation_id turn.user_id none
          turn.started_at)
        h.1 named begins ends counts refl
