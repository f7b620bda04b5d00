-- ===== src/Memory/Recall.antt =====
-- The state of a conversation in a memory, but for the time of its last change, is a function of what
-- was added to it.
use production_support_agent.Memory.State.{
  ConversationState, ConversationMemory, Message, remember, opened, add_message, belongs_to,
  update_thread_state, with_state, get_or_create, is_user, checked_owner,
}
use production_support_agent.Models.{IntentType}
use production_support_agent.Prelude.{
  ℕ, String, ◌≡◌, refl, ap, ◌∙◌, inl, inr, Bool, true, false, Option, none, some, eq_refl,
  if◌then◌else◌, ◌==◌, nat_eq, string_eq, Bool-cases, ok, get_key, get_key-put_key,
}

-- The last intent, if it counts.
abbrev pub kept_intent : Bool → Option IntentType → Option IntentType
kept_intent true intent = intent
kept_intent false intent = none

kept_none : (keep : Bool) → kept_intent keep none ≡ none
kept_none true = refl
kept_none false = refl

-- A state without the time of its last change, and without its last intent unless that counts.
abbrev pub forget : Bool → ConversationState → ConversationState
forget keep state = record state {
  updated_at = 0;
  last_intent = kept_intent keep state.last_intent;
}

abbrev pub forgotten : Bool → Option ConversationState → Option ConversationState
forgotten keep none = none
forgotten keep (some state) = some (forget keep state)

-- What is kept of the state of a conversation.
abbrev pub view : Bool → String → ConversationMemory → Option ConversationState
view keep conversation_id memory = forgotten keep (get_key memory.states conversation_id)

-- The owner of what is opened, by a check that does not look at times.
abbrev pub IsOwned : Message → Option ConversationState → Type 0
IsOwned m core =
    belongs_to (opened core m.tenant_id m.conversation_id m.user_id 0) m.tenant_id m.user_id ≡ true

module _ (find_order : String → Option String) where
  -- What a message makes of what is kept.
  abbrev pub with_message : Option ConversationState → Message → ConversationState
  with_message core m =
      remember find_order (opened core m.tenant_id m.conversation_id m.user_id 0) m 0

  -- The memory that add_message leaves.
  abbrev pub memory_after : ConversationMemory → Message → ℕ → ConversationMemory
  memory_after memory m now = with_state memory m.conversation_id (
      remember find_order
        (opened (get_key memory.states m.conversation_id) m.tenant_id m.conversation_id m.user_id
          now)
        m now)

module _ (find_order : String → Option String) (keep : Bool) where
  remember-forget :
      (state : ConversationState) (m : Message) (now : ℕ)
      → forget keep (remember find_order state m now) ≡ remember find_order (forget keep state) m 0
  unfolding remember update_thread_state
  remember-forget state m now = elim (Bool-cases (is_user m.role)) [
    | inl t ↦ rw t refl
    | inr t ↦ rw t refl
  ]

  opened-forget :
      (found : Option ConversationState) (tenant_id conversation_id user_id : String) (now : ℕ)
      → forget keep (opened found tenant_id conversation_id user_id now)
        ≡ opened (forgotten keep found) tenant_id conversation_id user_id 0
  unfolding opened
  opened-forget (some state) tenant_id conversation_id user_id now = refl
  opened-forget none tenant_id conversation_id user_id now =
      ap (λ i. record (opened none tenant_id conversation_id user_id 0) { last_intent = i })
        (kept_none keep)

  pub add_message-IsOwned :
      (memory : ConversationMemory) (m : Message) (now : ℕ)
      → IsOwned m (view keep m.conversation_id memory)
      → add_message find_order memory m now ≡ ok (memory_after find_order memory m now)
  unfolding add_message get_or_create checked_owner
  add_message-IsOwned memory m now owned =
      let found = get_key memory.states m.conversation_id in
      let same = opened-forget found m.tenant_id m.conversation_id m.user_id now in
      let mine : belongs_to (opened found m.tenant_id m.conversation_id m.user_id now) m.tenant_id
            m.user_id
          ≡ true =
        ap (λ s. belongs_to s m.tenant_id m.user_id) same ∙ owned in
      rw mine refl

  pub view_state :
      (memory : ConversationMemory) (conversation_id other : String) (state : ConversationState)
      → view keep other (with_state memory conversation_id state)
        ≡ (if conversation_id == other then some (forget keep state) else view keep other memory)
  view_state memory conversation_id other state =
      ap (forgotten keep) (get_key-put_key memory.states conversation_id other state)
      ∙ forgotten-if (conversation_id == other) (get_key memory.states other)
    where
      forgotten-if :
          (same : Bool) (found : Option ConversationState)
          → forgotten keep (if same then some state else found)
            ≡ (if same then some (forget keep state) else forgotten keep found)
      forgotten-if true found = refl
      forgotten-if false found = refl

  pub view_message :
      (memory : ConversationMemory) (m : Message) (now : ℕ)
      → view keep m.conversation_id (memory_after find_order memory m now)
        ≡ some (with_message find_order (view keep m.conversation_id memory) m)
  view_message memory m now =
      let found = get_key memory.states m.conversation_id in
      view_state memory m.conversation_id m.conversation_id _
      ∙ rw (eq_refl m.conversation_id) (
          ap some (
            remember-forget (opened found m.tenant_id m.conversation_id m.user_id now) m now
            ∙ ap (λ s. remember find_order s m 0)
                (opened-forget found m.tenant_id m.conversation_id m.user_id now)))

  -- What the answer makes of what is kept does not look at the intent.
  pub remember_intent :
      (state : ConversationState) (m : Message) (intent : Option IntentType)
      → remember find_order (record state { last_intent = intent }) m 0
        ≡ record (remember find_order state m 0) { last_intent = intent }
  unfolding remember update_thread_state
  remember_intent state m intent = elim (Bool-cases (is_user m.role)) [
    | inl t ↦ rw t refl
    | inr t ↦ rw t refl
  ]

  -- A message of another conversation changes nothing.
  pub view_other :
      (memory : ConversationMemory) (conversation_id other : String) (state : ConversationState)
      → (conversation_id == other) ≡ false
      → view keep other (with_state memory conversation_id state) ≡ view keep other memory
  view_other memory conversation_id other state apart =
      view_state memory conversation_id other state ∙ rw apart refl

  remember-tenant :
      (state : ConversationState) (m : Message)
      → (remember find_order state m 0).tenant_id ≡ state.tenant_id
  unfolding remember update_thread_state
  remember-tenant state m = elim (Bool-cases (is_user m.role)) [
    | inl t ↦ rw t refl
    | inr t ↦ rw t refl
  ]

  pub remember-belongs :
      (state : ConversationState) (m : Message) (tenant_id user_id : String)
      → belongs_to (remember find_order state m 0) tenant_id user_id
        ≡ belongs_to state tenant_id user_id
  unfolding remember update_thread_state
  remember-belongs state m tenant_id user_id = elim (Bool-cases (is_user m.role)) [
    | inl t ↦ rw t refl
    | inr t ↦ rw t refl
  ]

  -- A state whose last intent is set.
  pub view_intent :
      (memory : ConversationMemory) (conversation_id : String) (state core : ConversationState)
      (intent : IntentType)
      → forget keep state ≡ core
      → view keep conversation_id
          (with_state memory conversation_id (record state { last_intent = some intent }))
        ≡ some (record core { last_intent = kept_intent keep (some intent) })
  view_intent memory conversation_id state core intent kept =
      view_state memory conversation_id conversation_id (record state { last_intent = some intent })
      ∙ rw (eq_refl conversation_id) (
          ap {A = ConversationState}
            (λ x. some (record x { last_intent = kept_intent keep (some intent) })) kept)
