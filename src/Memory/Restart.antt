-- ===== src/Memory/Restart.antt =====
-- After a restart, a conversation is what it was.
use production_support_agent.Memory.Hydrated.{replayed_result, list-events_of}
use production_support_agent.Memory.Consistent.{IsConsistent, IsRecalled-memory, events_of}
use production_support_agent.Memory.Recall.{view, forgotten, forget, view_state}
use production_support_agent.Memory.Events.{StoredEvent}
use production_support_agent.Memory.Handled.{Agrees, handle_message-Agrees}
use production_support_agent.Memory.State.{empty_memory, ConversationState, belongs_to}
use production_support_agent.Memory.Replay.{
  replay_loop, no_progress, replay_result, Progress, ReplayError, MemoryReplayResult,
}
use production_support_agent.Memory.Turns.{
  ProcessStep, System, TurnError, run_steps, restored, message_step, run_step, restarted,
  handle_message, restored_from, hydrate_memory_from_events, loaded, from_store,
}
use production_support_agent.Memory.Turns.{message_step, restart_step}
use production_support_agent.Prelude.{
  ℕ, ◌≤◌, String, ◌≡◌, refl, sym, ap, ◌∙◌, Bool, true, false, Option, none, some, List, [], ◌∷◌,
  arith, eq_refl, nat_eq, string_eq, is_some, length, find, ok, err, Result, get_key, select,
  is_blank,
}

-- Turns follow each other in time, each in a conversation with a name; where the last intent counts,
-- each ends in an answer.
abbrev pub IsOrderly : Bool → ℕ → List ProcessStep → Type 0
IsOrderly keep clock [] = Unit {0}
IsOrderly keep clock (restart_step ∷ steps) = IsOrderly keep clock steps
IsOrderly keep clock (message_step turn ∷ steps) =
    (is_blank turn.conversation_id ≡ false)
    × (clock ≤ turn.started_at)
    × (turn.started_at ≤ turn.finished_at)
    × (keep ≡ true → is_some turn.answer ≡ true)
    × IsOrderly keep turn.finished_at steps

-- A process on an empty store.
abbrev pub first_process : String → System
first_process tenant_id = record {
  tenant_id = tenant_id;
  memory = empty_memory;
  event_store = some [];
}

-- What is kept of a conversation in the memory of the system that a call returns.
abbrev pub kept_after :
    Bool → String → Result TurnError System → Result TurnError (Option ConversationState)
kept_after keep conversation_id (err raised) = err raised
kept_after keep conversation_id (ok s) = ok (view keep conversation_id s.memory)

progress_path : {p q : Progress} → ◌≡◌ {A = Result ReplayError Progress} (ok p) (ok q) → p ≡ q
progress_path e = ground (arith, e)

module _ (find_order : String → Option String) (keep : Bool) where
  first-Agrees : (tenant_id : String) → Agrees find_order keep 0 (first_process tenant_id)
  unfolding replay_loop select get_key find
  first-Agrees tenant_id = (
    [],
    record {
      stored = refl;
      in_order = tt;
      past = tt;
      recalled = λ conversation_id. record {
        core = none;
        replays = λ now. (no_progress, refl, refl);
        agrees = λ state e. e;
        owned = λ state e. absurd (ground (arith, e));
      };
    },
  )

  restarted-Agrees :
      (clock : ℕ) (s : System)
      → Agrees find_order keep clock s
      → Agrees find_order keep clock (restarted s)
  unfolding get_key find
  restarted-Agrees clock s h = (
    h.0,
    record {
      stored = h.1.stored;
      in_order = h.1.in_order;
      past = h.1.past;
      recalled = λ conversation_id.
          IsRecalled-memory find_order keep s.tenant_id h.0 s.memory empty_memory conversation_id
            (h.1.recalled conversation_id) (λ state e. absurd (ground (arith, e)));
    },
  )

  -- The agreement holds after any orderly sequence.
  run_steps-Agrees :
      (clock : ℕ) (s : System) (steps : List ProcessStep)
      → Agrees find_order keep clock s
      → IsOrderly keep clock steps
      → (last : ℕ) × Agrees find_order keep last (run_steps find_order s steps)
  unfolding run_steps run_step
  run_steps-Agrees clock s [] h orderly = (clock, h)
  run_steps-Agrees clock s (restart_step ∷ steps) h orderly =
      run_steps-Agrees clock (restarted s) steps (restarted-Agrees clock s h) orderly
  run_steps-Agrees clock s (message_step turn ∷ steps) h orderly =
      run_steps-Agrees turn.finished_at (handle_message find_order s turn).0 steps
        (handle_message-Agrees find_order keep clock s turn h orderly.0 orderly.1 orderly.2
          orderly.3)
        orderly.4

  result-known :
      (conversation_id : String) (state : ConversationState) (count : ℕ) (p : Progress)
      (found : Option ConversationState)
      → forgotten keep found ≡ some (forget keep state)
      → (r : MemoryReplayResult) × (replay_result conversation_id count p found ≡ ok r)
        × (forget keep r.state ≡ forget keep state)
  result-known conversation_id state count p none e = absurd (ground (arith, e))
  result-known conversation_id state count p (some replayed) e = (_, refl, ground (arith, e))

  -- A new process replays what is known of a conversation.
  listed-known :
      (clock : ℕ) (s : System) (rows : List StoredEvent) (conversation_id user_id : String)
      (state : ConversationState) (now : ℕ) (events : List StoredEvent)
      (h : IsConsistent find_order keep clock s rows)
      → is_blank conversation_id ≡ false
      → (h.recalled conversation_id).core ≡ some (forget keep state)
      → events_of s.tenant_id conversation_id rows ≡ events
      → (r : MemoryReplayResult) × (restored_from find_order
            (restarted s)
            conversation_id
            user_id
            now
            events
          ≡ restored (restarted s) conversation_id user_id (ok r))
        × (forget keep r.state ≡ forget keep state)
  unfolding restored_from replay_loop get_key find
  listed-known clock s rows conversation_id user_id state now [] h named known listed =
      let replay = (h.recalled conversation_id).replays now in
      let none_left : no_progress ≡ replay.0 =
        progress_path
          (sym (ap (replay_loop find_order now conversation_id no_progress) listed) ∙ replay.1) in
      let nothing : none ≡ some (forget keep state) =
        ap {A = Progress} (λ p. view keep conversation_id p.memory) none_left ∙ replay.2 ∙ known in
      absurd (ground (arith, nothing))
  listed-known clock s rows conversation_id user_id state now (e ∷ es) h named known listed =
      let replay = (h.recalled conversation_id).replays now in
      let result =
        result-known conversation_id state (length (e ∷ es)) replay.0
          (get_key replay.0.memory.states conversation_id) (replay.2 ∙ known) in
      (
        result.0,
        ap (restored (restarted s) conversation_id user_id) (
            replayed_result find_order keep clock s rows conversation_id now e es h named listed
            ∙ result.1),
        result.2,
      )

  -- What hydration finds in a new process, for any user.
  pub hydrate-known :
      (tenant_id : String) (steps : List ProcessStep) (conversation_id user_id : String)
      (state : ConversationState) (now : ℕ)
      → IsOrderly keep 0 steps
      → is_blank conversation_id ≡ false
      → get_key (run_steps find_order (first_process tenant_id) steps).memory.states conversation_id
        ≡ some state
      → let s = run_steps find_order (first_process tenant_id) steps in
        (state.tenant_id ≡ s.tenant_id)
        × ((r : MemoryReplayResult) × (hydrate_memory_from_events find_order
                (restarted s)
                conversation_id
                user_id
                none
                now
              ≡ restored (restarted s) conversation_id user_id (ok r))
            × (forget keep r.state ≡ forget keep state))
  unfolding hydrate_memory_from_events loaded from_store get_key find
  hydrate-known tenant_id steps conversation_id user_id state now orderly named found =
      let s = run_steps find_order (first_process tenant_id) steps in
      let run =
        run_steps-Agrees 0 (first_process tenant_id) steps (first-Agrees tenant_id) orderly in
      let rows = run.1.0 in
      let h = run.1.1 in
      let known =
        (h.recalled conversation_id).agrees (forget keep state) (ap (forgotten keep) found) in
      let listed =
        listed-known run.0 s rows conversation_id user_id state now
          (events_of s.tenant_id conversation_id rows) h named known refl in
      (
        (h.recalled conversation_id).owned (forget keep state) known,
        (
          listed.0,
          ap (from_store find_order (restarted s) conversation_id user_id none now) h.stored
              ∙ ap (restored_from find_order (restarted s) conversation_id user_id now)
                  (list-events_of rows s.tenant_id conversation_id h.in_order)
              ∙ listed.1,
          listed.2,
        ),
      )

  restored-kept :
      (s : System) (conversation_id : String) (state : ConversationState) (r : MemoryReplayResult)
      → state.tenant_id ≡ s.tenant_id
      → forget keep r.state ≡ forget keep state
      → kept_after keep conversation_id
          (restored (restarted s) conversation_id state.user_id (ok r))
        ≡ ok (some (forget keep state))
  unfolding restored
  restored-kept s conversation_id state r tenant same =
      let mine : belongs_to r.state s.tenant_id state.user_id ≡ true =
        ap {A = ConversationState} (λ x. belongs_to x s.tenant_id state.user_id) same
        ∙ rw (tenant, eq_refl s.tenant_id, eq_refl state.user_id) refl in
      rw mine (
        ap ok (
          view_state find_order keep empty_memory conversation_id conversation_id r.state
          ∙ rw (eq_refl conversation_id) (ap some same)))

  -- After any turns and restarts of a process on an empty store, in the order of their times and in
  -- conversations with names, hydrating a conversation that is in memory, in a new process on the same
  -- store and for the conversation's user, succeeds with its state: the messages, the facts and the
  -- summary are those in memory, and, where `keep` is true, which needs that every turn ended in an
  -- answer, the last intent too. Only the time of the last change is not compared.
  pub restart_recalls :
      (tenant_id : String) (steps : List ProcessStep) (conversation_id : String)
      (state : ConversationState) (now : ℕ)
      → IsOrderly keep 0 steps
      → is_blank conversation_id ≡ false
      → get_key (run_steps find_order (first_process tenant_id) steps).memory.states conversation_id
        ≡ some state
      → kept_after keep conversation_id (
          hydrate_memory_from_events find_order
            (restarted (run_steps find_order (first_process tenant_id) steps))
            conversation_id
            state.user_id
            none
            now)
        ≡ ok (some (forget keep state))
  restart_recalls tenant_id steps conversation_id state now orderly named found =
      let s = run_steps find_order (first_process tenant_id) steps in
      let known =
        hydrate-known tenant_id steps conversation_id state.user_id state now orderly named found in
      ap (kept_after keep conversation_id) known.1.1
      ∙ restored-kept s conversation_id state known.1.0 known.0 known.1.2
