-- ===== src/Memory/Hydrated.antt =====
-- hydrate_memory_from_events of agent/orchestrator.py keeps the memory and the store in agreement.
use production_support_agent.Memory.Recall.{view, forget, forgotten, view_state, view_other}
use production_support_agent.Memory.Consistent.{
  IsConsistent, events_of, IsRecalled-memory, IsRecalled,
}
use production_support_agent.Memory.Replay.{
  replay_loop, no_progress, Progress, replay_conversation_memory, conversation_of, replay_result,
}
use production_support_agent.Memory.State.{opened, ConversationState, belongs_to, with_state}
use production_support_agent.Memory.Turns.{
  System, hydrate_memory_from_events, loaded, permission, restored, restored_from, from_store,
}
use production_support_agent.Memory.Events.{
  list_conversation_memory_events, is_memory_event, is_of, StoredEvent, event_time,
}
use production_support_agent.Prelude.{
  ℕ, String, ◌≡◌, refl, sym, ap, ◌∙◌, subst, inl, inr, Bool, true, false, false≢true, Option, none,
  some, List, [], ◌∷◌, arith, eq_iff, eq_refl, if◌then◌else◌, ◌==◌, nat_eq, string_eq, Bool-cases,
  length, All, find, ok, err, Ascending, get_key, sort_by_kept, select-Ascending, is_blank,
  All-select, after-ok,
}

-- The listed events of a store in order are those of the conversation.
pub list-events_of :
    (rows : List StoredEvent) (tenant_id conversation_id : String)
    → Ascending event_time rows
    → list_conversation_memory_events rows tenant_id conversation_id none
      ≡ events_of tenant_id conversation_id rows
unfolding list_conversation_memory_events
list-events_of rows tenant_id conversation_id h =
    sort_by_kept event_time (events_of tenant_id conversation_id rows)
      (select-Ascending event_time (is_memory_event tenant_id conversation_id) rows h)

memory_event-conversation :
    (tenant_id conversation_id : String) (e : StoredEvent)
    → is_memory_event tenant_id conversation_id e ≡ true
    → is_of e.conversation_id conversation_id ≡ true
unfolding is_memory_event
memory_event-conversation tenant_id conversation_id e h = ground (arith, h)

is_of-some : (own : Option String) (c : String) → is_of own c ≡ true → own ≡ some c
is_of-some none c h = absurd (false≢true h)
is_of-some (some d) c h = ap some ((eq_iff d c).0 h)

module _ (find_order : String → Option String) (keep : Bool) where
  -- A conversation in memory that is the user's, or one that nothing is known of.
  pub record IsReady (clock : ℕ) (s : System) (rows : List StoredEvent)
      (conversation_id user_id : String) : Type 0 where
    pub consistent : IsConsistent find_order keep clock s rows
    pub core_seen : (consistent.recalled conversation_id).core ≡ view keep conversation_id s.memory
    pub mine :
        belongs_to
          (opened (view keep conversation_id s.memory) s.tenant_id conversation_id user_id 0)
          s.tenant_id
          user_id
        ≡ true

  loaded-IsReady :
      (clock : ℕ) (s : System) (rows : List StoredEvent) (conversation_id user_id : String)
      (state : ConversationState)
      → IsConsistent find_order keep clock s rows
      → get_key s.memory.states conversation_id ≡ some state
      → belongs_to state s.tenant_id user_id ≡ true
      → IsReady clock s rows conversation_id user_id
  unfolding opened
  loaded-IsReady clock s rows conversation_id user_id state h found own =
      let seen : view keep conversation_id s.memory ≡ some (forget keep state) =
        ap (forgotten keep) found in
      record {
        consistent = h;
        core_seen = (h.recalled conversation_id).agrees (forget keep state) seen ∙ sym seen;
        mine =
            ap
              (λ o. belongs_to (opened o s.tenant_id conversation_id user_id 0) s.tenant_id user_id)
              seen
            ∙ own;
      }

  -- Nothing is replayed of no events.
  unknown-IsReady :
      (clock : ℕ) (s : System) (rows : List StoredEvent) (conversation_id user_id : String)
      → IsConsistent find_order keep clock s rows
      → get_key s.memory.states conversation_id ≡ none
      → events_of s.tenant_id conversation_id rows ≡ []
      → IsReady clock s rows conversation_id user_id
  unfolding opened replay_loop get_key find
  unknown-IsReady clock s rows conversation_id user_id h found no_events_of_it =
      let seen : view keep conversation_id s.memory ≡ none = ap (forgotten keep) found in
      let known = (h.recalled conversation_id).replays 0 in
      let none_left : ok no_progress ≡ ok known.0 =
        sym (ap (replay_loop find_order 0 conversation_id no_progress) no_events_of_it) ∙ known.1 in
      let start : no_progress ≡ known.0 = ground (arith, none_left) in
      record {
        consistent = h;
        core_seen =
            sym known.2
            ∙ sym (ap {A = Progress} (λ p. view keep conversation_id p.memory) start)
            ∙ sym seen;
        mine =
            ap
              (λ o. belongs_to (opened o s.tenant_id conversation_id user_id 0) s.tenant_id user_id)
              seen
            ∙ rw (eq_refl s.tenant_id, eq_refl user_id) refl;
      }

  -- The system with the state that was replayed.
  restored_system : System → String → ConversationState → System
  restored_system s conversation_id state = record s {
    memory = with_state s.memory conversation_id state;
  }

  restored-agrees :
      {clock : ℕ} (s : System) (rows : List StoredEvent) (conversation_id other : String)
      (state kept : ConversationState) (h : IsConsistent find_order keep clock s rows)
      → (h.recalled conversation_id).core ≡ some (forget keep state)
      → conversation_id ≡ other
      → view keep other (with_state s.memory conversation_id state) ≡ some kept
      → (h.recalled other).core ≡ some kept
  restored-agrees s rows conversation_id other state kept h known same e =
      subst (λ c. (h.recalled c).core ≡ some (forget keep state)) same known
      ∙ sym (
          view_state find_order keep s.memory conversation_id other state
          ∙ rw ((eq_iff conversation_id other).1 same) refl)
      ∙ e

  restored_system-IsReady :
      (clock : ℕ) (s : System) (rows : List StoredEvent) (conversation_id user_id : String)
      (state : ConversationState) (h : IsConsistent find_order keep clock s rows)
      → (h.recalled conversation_id).core ≡ some (forget keep state)
      → belongs_to state s.tenant_id user_id ≡ true
      → IsReady clock (restored_system s conversation_id state) rows conversation_id user_id
  unfolding restored_system opened
  restored_system-IsReady clock s rows conversation_id user_id state h known own =
      let later = with_state s.memory conversation_id state in
      let seen =
        view_state find_order keep s.memory conversation_id conversation_id state
        ∙ rw (eq_refl conversation_id) refl in
      let all : (other : String) → IsRecalled find_order keep s.tenant_id rows later other =
        λ other.
          IsRecalled-memory find_order keep s.tenant_id rows s.memory later other (h.recalled other)
            (λ kept e. elim (Bool-cases (conversation_id == other)) [
              | inl t ↦
                  restored-agrees s rows conversation_id other state kept h known
                    ((eq_iff conversation_id other).0 t) e
              | inr t ↦
                  (h.recalled other).agrees kept
                    (sym (view_other find_order keep s.memory conversation_id other state t) ∙ e)
            ]) in
      record {
        consistent = record {
          stored = h.stored;
          in_order = h.in_order;
          past = h.past;
          recalled = all;
        };
        core_seen = (all conversation_id).agrees (forget keep state) seen ∙ sym seen;
        mine =
            ap
              (λ o. belongs_to (opened o s.tenant_id conversation_id user_id 0) s.tenant_id user_id)
              seen
            ∙ own;
      }

  -- What replay of the listed events gives.
  pub replayed_result :
      (clock : ℕ) (s : System) (rows : List StoredEvent) (conversation_id : String) (now : ℕ)
      (e : StoredEvent) (es : List StoredEvent) (h : IsConsistent find_order keep clock s rows)
      → is_blank conversation_id ≡ false
      → events_of s.tenant_id conversation_id rows ≡ e ∷ es
      → let p = ((h.recalled conversation_id).replays now).0 in
        replay_conversation_memory find_order now (e ∷ es)
        ≡ replay_result conversation_id
            (length (e ∷ es))
            p
            (get_key p.memory.states conversation_id)
  unfolding replay_conversation_memory conversation_of
  replayed_result clock s rows conversation_id now e es h named listed =
      let known = (h.recalled conversation_id).replays now in
      let mine =
        subst (λ l. All (λ x. is_memory_event s.tenant_id conversation_id x ≡ true) l) listed
          (All-select (is_memory_event s.tenant_id conversation_id) rows) in
      let own : e.conversation_id ≡ some conversation_id =
        is_of-some e.conversation_id conversation_id
          (memory_event-conversation s.tenant_id conversation_id e mine.0) in
      after-ok _ (ap conversation_of own ∙ rw named refl)
      ∙ after-ok _
          (ap (replay_loop find_order now conversation_id no_progress) (sym listed) ∙ known.1)

  -- The system that was returned is the one that is ready.
  returned-IsReady :
      (clock : ℕ) (one after : System) (rows : List StoredEvent) (conversation_id user_id : String)
      (b : Bool)
      → (b ≡ true → IsReady clock one rows conversation_id user_id)
      → (if b then ok one else err permission) ≡ ok after
      → IsReady clock after rows conversation_id user_id
  returned-IsReady clock one after rows conversation_id user_id true ready h =
      let same : one ≡ after = ground (arith, h) in
      subst (λ x. IsReady clock x rows conversation_id user_id) same (ready refl)
  returned-IsReady clock one after rows conversation_id user_id false ready h =
      absurd (ground (arith, h))

  result-IsReady :
      (clock : ℕ) (s after : System) (rows : List StoredEvent) (conversation_id user_id : String)
      (count now : ℕ) (h : IsConsistent find_order keep clock s rows)
      (found : Option ConversationState)
      → get_key ((h.recalled conversation_id).replays now).0.memory.states conversation_id ≡ found
      → restored s conversation_id user_id
          (replay_result conversation_id count ((h.recalled conversation_id).replays now).0 found)
        ≡ ok after
      → IsReady clock after rows conversation_id user_id
  unfolding restored restored_system
  result-IsReady clock s after rows conversation_id user_id count now h none e returned =
      absurd (ground (arith, returned))
  result-IsReady clock s after rows conversation_id user_id count now h (some state) e returned =
      returned-IsReady clock (restored_system s conversation_id state) after rows conversation_id
        user_id (belongs_to state s.tenant_id user_id)
        (λ own.
          restored_system-IsReady clock s rows conversation_id user_id state h
            (sym ((h.recalled conversation_id).replays now).2 ∙ ap (forgotten keep) e) own)
        returned

  listed-IsReady :
      (clock : ℕ) (s after : System) (rows : List StoredEvent) (conversation_id user_id : String)
      (now : ℕ) (events : List StoredEvent)
      → IsConsistent find_order keep clock s rows
      → is_blank conversation_id ≡ false
      → get_key s.memory.states conversation_id ≡ none
      → events_of s.tenant_id conversation_id rows ≡ events
      → restored_from find_order s conversation_id user_id now events ≡ ok after
      → IsReady clock after rows conversation_id user_id
  unfolding restored_from
  listed-IsReady clock s after rows conversation_id user_id now [] h named missing listed returned =
      let same : s ≡ after = ground (arith, returned) in
      subst (λ x. IsReady clock x rows conversation_id user_id) same
        (unknown-IsReady clock s rows conversation_id user_id h missing listed)
  listed-IsReady clock s after rows conversation_id user_id now (e ∷ es) h named missing listed
        returned =
      result-IsReady clock s after rows conversation_id user_id (length (e ∷ es)) now h
        (get_key ((h.recalled conversation_id).replays now).0.memory.states conversation_id) refl
        (ap (restored s conversation_id user_id)
            (sym (replayed_result clock s rows conversation_id now e es h named listed))
          ∙ returned)

  loaded-case :
      (clock : ℕ) (s after : System) (rows : List StoredEvent) (conversation_id user_id : String)
      (now : ℕ) (found : Option ConversationState)
      → IsConsistent find_order keep clock s rows
      → is_blank conversation_id ≡ false
      → get_key s.memory.states conversation_id ≡ found
      → loaded find_order s conversation_id user_id none now found ≡ ok after
      → IsReady clock after rows conversation_id user_id
  unfolding loaded from_store
  loaded-case clock s after rows conversation_id user_id now (some state) h named found returned =
      returned-IsReady clock s after rows conversation_id user_id
        (belongs_to state s.tenant_id user_id)
        (loaded-IsReady clock s rows conversation_id user_id state h found) returned
  loaded-case clock s after rows conversation_id user_id now none h named missing returned =
      listed-IsReady clock s after rows conversation_id user_id now
        (events_of s.tenant_id conversation_id rows) h named missing refl
        (ap (restored_from find_order s conversation_id user_id now)
            (sym (list-events_of rows s.tenant_id conversation_id h.in_order))
          ∙ ap (from_store find_order s conversation_id user_id none now) (sym h.stored)
          ∙ returned)

  -- Hydration leaves a conversation that is the user's, or one that nothing is known of.
  pub hydrate-IsReady :
      (clock : ℕ) (s after : System) (rows : List StoredEvent) (conversation_id user_id : String)
      (now : ℕ)
      → IsConsistent find_order keep clock s rows
      → is_blank conversation_id ≡ false
      → hydrate_memory_from_events find_order s conversation_id user_id none now ≡ ok after
      → IsReady clock after rows conversation_id user_id
  unfolding hydrate_memory_from_events
  hydrate-IsReady clock s after rows conversation_id user_id now h named returned =
      loaded-case clock s after rows conversation_id user_id now
        (get_key s.memory.states conversation_id) h named refl returned
