-- ===== src/Memory/Answered.antt =====
-- handle_message of agent/orchestrator.py keeps the memory and the store in agreement.
use production_support_agent.Memory.Replayed.{
  progress_message, replay_message_event, progress_run, replay_run_event,
}
use production_support_agent.Memory.Recall.{
  with_message, memory_after, view, view_message, view_other, IsOwned, kept_intent, forgotten,
  remember-belongs, forget, view_state, remember_intent, view_intent,
}
use production_support_agent.Memory.Consistent.{
  IsRecalled, IsRecalled-extended, events_of, IsRecalled-unchanged, IsRecalled-memory,
}
use production_support_agent.Memory.Replay.{replay_loop, Progress}
use production_support_agent.Memory.Appended.{
  asked_event, events_of-asked_other, events_of-asked, events_of-final, events_of-final_other,
}
use production_support_agent.Memory.State.{
  ConversationState, ConversationMemory, belongs_to, opened, Message, remember,
}
use production_support_agent.Memory.Hydrated.{IsReady}
use production_support_agent.Memory.Events.{StoredEvent}
use production_support_agent.Memory.Turns.{
  System, ChatTurn, user_message, with_last_intent, final_events, answer_message,
}
use production_support_agent.Prelude.{
  ℕ, String, ◌≡◌, refl, sym, ap, ◌∙◌, subst, ◌⊎◌, inl, inr, Bool, true, false, Option, none, some,
  List, [], ◌∷◌, ◌++◌, arith, eq_iff, eq_refl, ◌==◌, nat_eq, string_eq, Bool-cases, ok, after-ok,
  get_key, get_key-put_key,
}

belongs-tenant :
    (state : ConversationState) (tenant_id user_id : String)
    → belongs_to state tenant_id user_id ≡ true
    → state.tenant_id ≡ tenant_id
belongs-tenant state tenant_id user_id h = ground (arith, eq_iff state.tenant_id tenant_id, h)

module _ (find_order : String → Option String) (keep : Bool) (clock : ℕ) (s : System)
    (rows : List StoredEvent) (turn : ChatTurn)
    (ready : IsReady find_order keep clock s rows turn.conversation_id turn.user_id) where
  -- What is kept of the conversation when the user's message was added.
  abbrev pub asked_core : ConversationState
  asked_core =
      with_message find_order (view keep turn.conversation_id s.memory)
        (user_message s.tenant_id turn)

  abbrev pub asked_memory : ConversationMemory
  asked_memory = memory_after find_order s.memory (user_message s.tenant_id turn) turn.started_at

  abbrev pub asked_rows : List StoredEvent
  asked_rows = rows ++ asked_event s.tenant_id turn ∷ []

  replay-asked :
      (now : ℕ) (p : Progress)
      → view keep turn.conversation_id p.memory
        ≡ (ready.consistent.recalled turn.conversation_id).core
      → (q : Progress) × (replay_loop find_order now turn.conversation_id p
            (events_of s.tenant_id turn.conversation_id (asked_event s.tenant_id turn ∷ []))
          ≡ ok q)
        × (view keep turn.conversation_id q.memory ≡ some asked_core)
  unfolding replay_loop
  replay-asked now p e =
      let m = user_message s.tenant_id turn in
      let same : view keep turn.conversation_id p.memory ≡ view keep turn.conversation_id s.memory =
        e ∙ ready.core_seen in
      (
        progress_message find_order now p m,
        ap (replay_loop find_order now turn.conversation_id p) (events_of-asked s.tenant_id turn)
            ∙ after-ok _ (
                replay_message_event find_order now keep p m turn.started_at
                  (subst (IsOwned m) (sym same) ready.mine)),
        view_message find_order keep p.memory m now
            ∙ ap (λ o. some (with_message find_order o m)) same,
      )

  pub asked-belongs : belongs_to asked_core s.tenant_id turn.user_id ≡ true
  asked-belongs =
      remember-belongs find_order keep
        (opened (view keep turn.conversation_id s.memory) s.tenant_id turn.conversation_id
          turn.user_id 0)
        (user_message s.tenant_id turn) s.tenant_id turn.user_id
      ∙ ready.mine

  asked-tenant : asked_core.tenant_id ≡ s.tenant_id
  asked-tenant = belongs-tenant asked_core s.tenant_id turn.user_id asked-belongs

  asked-IsRecalled :
      (other : String) → IsRecalled find_order keep s.tenant_id asked_rows asked_memory other
  asked-IsRecalled other = elim (Bool-cases (turn.conversation_id == other)) [
    | inl t ↦
        subst (IsRecalled find_order keep s.tenant_id asked_rows asked_memory)
          ((eq_iff turn.conversation_id other).0 t)
          (IsRecalled-extended find_order keep s.tenant_id rows (asked_event s.tenant_id turn ∷ [])
            s.memory asked_memory turn.conversation_id asked_core
            (ready.consistent.recalled turn.conversation_id) replay-asked
            (view_message find_order keep s.memory (user_message s.tenant_id turn) turn.started_at)
            asked-tenant)
    | inr t ↦
        IsRecalled-unchanged find_order keep s.tenant_id rows (asked_event s.tenant_id turn ∷ [])
          s.memory asked_memory other (events_of-asked_other s.tenant_id turn other t)
          (view_other find_order keep s.memory turn.conversation_id other _ t)
          (ready.consistent.recalled other)
  ]

  -- The memory with the intent of the message.
  abbrev pub intent_memory : ConversationMemory
  intent_memory =
      with_last_intent find_order asked_memory turn
        (get_key asked_memory.states turn.conversation_id)

  intent_other :
      (found : Option ConversationState) (other : String)
      → (turn.conversation_id == other) ≡ false
      → view keep other (with_last_intent find_order asked_memory turn found)
        ≡ view keep other asked_memory
  intent_other none other apart = refl
  intent_other (some state) other apart =
      view_other find_order keep asked_memory turn.conversation_id other _ apart

  -- What is kept with the intent.
  abbrev pub intent_core : ConversationState
  intent_core = record asked_core { last_intent = kept_intent keep (some turn.intent) }

  intent_view :
      (found : Option ConversationState)
      → forgotten keep found ≡ some asked_core
      → view keep turn.conversation_id (with_last_intent find_order asked_memory turn found)
        ≡ some intent_core
  intent_view none e = absurd (ground (arith, e))
  intent_view (some state) e =
      view_intent find_order keep asked_memory turn.conversation_id state asked_core turn.intent
        (ground (arith, e))

  asked_view : view keep turn.conversation_id asked_memory ≡ some asked_core
  asked_view = view_message find_order keep s.memory (user_message s.tenant_id turn) turn.started_at

  -- Where the intent does not count, it changes nothing.
  intent_same :
      (found : Option ConversationState)
      → keep ≡ false
      → forgotten keep found ≡ some asked_core
      → view keep turn.conversation_id (with_last_intent find_order asked_memory turn found)
        ≡ some asked_core
  intent_same none k e = absurd (ground (arith, e))
  intent_same (some state) k e =
      view_state find_order keep asked_memory turn.conversation_id turn.conversation_id
        (record state { last_intent = some turn.intent })
      ∙ rw (eq_refl turn.conversation_id) (ap some (rw k refl) ∙ e)

  -- The turn ends by an exception.
  pub failed-IsRecalled :
      keep ≡ false
      → (other : String) → IsRecalled find_order keep s.tenant_id asked_rows intent_memory other
  failed-IsRecalled unkept other =
      IsRecalled-memory find_order keep s.tenant_id asked_rows asked_memory intent_memory other
        (asked-IsRecalled other)
        (λ state e.
          (asked-IsRecalled other).agrees state
            (same (Bool-cases (turn.conversation_id == other)) ∙ e))
    where
      same :
          ((turn.conversation_id == other) ≡ true) ⊎ ((turn.conversation_id == other) ≡ false)
          → view keep other asked_memory ≡ view keep other intent_memory
      same (inl t) =
          subst (λ c. view keep c asked_memory ≡ view keep c intent_memory)
            ((eq_iff turn.conversation_id other).0 t)
            (asked_view
              ∙ sym (
                  intent_same (get_key asked_memory.states turn.conversation_id) unkept asked_view))
      same (inr t) = sym (intent_other (get_key asked_memory.states turn.conversation_id) other t)

module _ (find_order : String → Option String) (keep : Bool) (clock : ℕ) (s : System)
    (rows : List StoredEvent) (turn : ChatTurn)
    (ready : IsReady find_order keep clock s rows turn.conversation_id turn.user_id)
    (answer : String) where
  abbrev pub before_answer : ConversationState
  before_answer = asked_core find_order keep clock s rows turn ready

  abbrev pub replied : Message
  replied = answer_message s.tenant_id turn answer

  -- What is kept after the answer.
  abbrev pub final_core : ConversationState
  final_core = record (remember find_order before_answer replied 0) {
    last_intent = kept_intent keep (some turn.intent);
  }

  abbrev pub final_memory : ConversationMemory
  final_memory =
      memory_after find_order (intent_memory find_order keep clock s rows turn ready) replied
        turn.finished_at

  pub before_final :
      view keep turn.conversation_id (intent_memory find_order keep clock s rows turn ready)
      ≡ some (intent_core find_order keep clock s rows turn ready)
  before_final =
      intent_view find_order keep clock s rows turn ready
        (get_key (asked_memory find_order keep clock s rows turn ready).states turn.conversation_id)
        (asked_view find_order keep clock s rows turn ready)

  final_view : view keep turn.conversation_id final_memory ≡ some final_core
  unfolding opened
  final_view =
      view_message find_order keep (intent_memory find_order keep clock s rows turn ready) replied
        turn.finished_at
      ∙ ap (λ o. some (with_message find_order o replied)) before_final
      ∙ ap some (
          remember_intent find_order keep before_answer replied
            (kept_intent keep (some turn.intent)))

  replay-final :
      (now : ℕ) (p : Progress)
      → view keep turn.conversation_id p.memory ≡ some before_answer
      → (q : Progress) × (replay_loop find_order now turn.conversation_id p
            (events_of s.tenant_id turn.conversation_id (final_events s.tenant_id turn answer))
          ≡ ok q)
        × (view keep turn.conversation_id q.memory ≡ some final_core)
  unfolding replay_loop opened
  replay-final now p e =
      let q = progress_message find_order now p replied in
      let state =
        remember find_order
          (opened (get_key p.memory.states turn.conversation_id) s.tenant_id turn.conversation_id
            turn.user_id now)
          replied now in
      let found : get_key q.memory.states turn.conversation_id ≡ some state =
        get_key-put_key p.memory.states turn.conversation_id turn.conversation_id state
        ∙ rw (eq_refl turn.conversation_id) refl in
      let both : some (forget keep state) ≡ some (remember find_order before_answer replied 0) =
        sym (ap (forgotten keep) found)
        ∙ view_message find_order keep p.memory replied now
        ∙ ap (λ o. some (with_message find_order o replied)) e in
      let kept : forget keep state ≡ remember find_order before_answer replied 0 =
        ground (arith, both) in
      (
        progress_run find_order now q turn.conversation_id state turn.intent,
        ap (replay_loop find_order now turn.conversation_id p)
              (events_of-final s.tenant_id turn answer)
            ∙ after-ok _ (
                replay_message_event find_order now keep p replied turn.finished_at (
                  subst (IsOwned replied) (sym e)
                    (asked-belongs find_order keep clock s rows turn ready)))
            ∙ after-ok _ (replay_run_event find_order now q s.tenant_id turn state found),
        view_intent find_order keep q.memory turn.conversation_id state
            (remember find_order before_answer replied 0) turn.intent kept,
      )

  final_tenant : final_core.tenant_id ≡ s.tenant_id
  final_tenant =
      belongs-tenant (remember find_order before_answer replied 0) s.tenant_id turn.user_id (
        remember-belongs find_order keep before_answer replied s.tenant_id turn.user_id
        ∙ asked-belongs find_order keep clock s rows turn ready)

  pub final-IsRecalled :
      (other : String)
      → IsRecalled find_order keep s.tenant_id
          (asked_rows find_order keep clock s rows turn ready
            ++ final_events s.tenant_id turn answer)
          final_memory
          other
  final-IsRecalled other =
      let before_memory = asked_memory find_order keep clock s rows turn ready in
      let before_rows = asked_rows find_order keep clock s rows turn ready in
      let asked = asked-IsRecalled find_order keep clock s rows turn ready in
      elim (Bool-cases (turn.conversation_id == other)) [
        | inl t ↦
            subst
              (IsRecalled find_order keep s.tenant_id
                (before_rows ++ final_events s.tenant_id turn answer) final_memory)
              ((eq_iff turn.conversation_id other).0 t)
              (IsRecalled-extended find_order keep s.tenant_id before_rows
                (final_events s.tenant_id turn answer) before_memory final_memory
                turn.conversation_id final_core (asked turn.conversation_id)
                (λ now p e. replay-final now p (
                  e
                  ∙ (asked turn.conversation_id).agrees before_answer
                      (asked_view find_order keep clock s rows turn ready)))
                final_view final_tenant)
        | inr t ↦
            IsRecalled-unchanged find_order keep s.tenant_id before_rows
              (final_events s.tenant_id turn answer) before_memory final_memory other
              (events_of-final_other s.tenant_id turn answer other t)
              (view_other find_order keep (intent_memory find_order keep clock s rows turn ready)
                  turn.conversation_id other _ t
                ∙ intent_other find_order keep clock s rows turn ready
                    (get_key before_memory.states turn.conversation_id) other t)
              (asked other)
      ]
