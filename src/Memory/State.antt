-- ===== src/Memory/State.antt =====
-- memory/store.py, ConversationMemory, with Message and ConversationState of models.py. The search for
-- the number of an order by a regular expression is a parameter. Times are numbers of microseconds.
use production_support_agent.Models.{IntentType}
use production_support_agent.Prelude.{
  ℕ, String, Bool, true, false, ◌&&◌, ◌||◌, Option, none, some, List, [], ◌∷◌, ◌++◌, map, leb,
  if◌then◌else◌, ◌==◌, nat_eq, string_eq, length, ok, err, Result, put_key, get_key, occurs_in,
  join_text, before, select, take_text, last_elements, value_or,
}

-- Role
pub data Role : Type 0 where
  user assistant system tool : Role

unfoldable pub role_value : Role → String
role_value user = "user"
role_value assistant = "assistant"
role_value system = "system"
role_value tool = "tool"

-- `role == Role.user`
abbrev pub is_user : Role → Bool
is_user user = true
is_user assistant = false
is_user system = false
is_user tool = false

-- Message; `metadata` as its JSON.
pub record Message : Type 0 where
  pub id : String
  pub tenant_id : String
  pub conversation_id : String
  pub user_id : String
  pub role : Role
  pub content : String
  pub created_at : ℕ
  pub metadata : String

-- ConversationState; the facts that the code stores are texts.
pub record ConversationState : Type 0 where
  pub tenant_id : String
  pub conversation_id : String
  pub user_id : String
  pub messages : List Message
  pub facts : List (String × String)
  pub working_summary : String
  pub open_questions : List String
  pub last_intent : Option IntentType
  pub updated_at : ℕ

-- ConversationMemory
pub record ConversationMemory : Type 0 where
  pub states : List (String × ConversationState)
  pub profile_facts : List (String × List (String × String))

-- PermissionError
pub data MemoryError : Type 0 where
  foreign_conversation : MemoryError

abbrev pub empty_memory : ConversationMemory
empty_memory = record { states = []; profile_facts = [] }

-- The state of a conversation, or a new one.
unfoldable pub opened : Option ConversationState → String → String → String → ℕ → ConversationState
opened (some state) tenant_id conversation_id user_id now = state
opened none tenant_id conversation_id user_id now = record {
  tenant_id = tenant_id;
  conversation_id = conversation_id;
  user_id = user_id;
  messages = [];
  facts = [];
  working_summary = "";
  open_questions = [];
  last_intent = none;
  updated_at = now;
}

-- `not (state.tenant_id != tenant_id or state.user_id != user_id)`
abbrev pub belongs_to : ConversationState → String → String → Bool
belongs_to state tenant_id user_id = state.tenant_id == tenant_id && state.user_id == user_id

-- A state in its place in the memory.
abbrev pub with_state : ConversationMemory → String → ConversationState → ConversationMemory
with_state memory conversation_id state = record memory {
  states = put_key memory.states conversation_id state;
}

-- The check of get_or_create.
unfoldable pub checked_owner :
    String → String → ConversationState → Result MemoryError ConversationState
checked_owner tenant_id user_id state =
    if belongs_to state tenant_id user_id then ok state else err foreign_conversation

unfoldable pub get_or_create :
    ConversationMemory → String → String → String → ℕ → Result MemoryError ConversationState
get_or_create memory tenant_id conversation_id user_id now =
    checked_owner tenant_id user_id
      (opened (get_key memory.states conversation_id) tenant_id conversation_id user_id now)

module _ (find_order : String → Option String) where
  -- `state.facts["last_order_id"] = match` where the search matches
  abbrev pub order_fact : Option String → List (String × String) → List (String × String)
  order_fact none facts = facts
  order_fact (some order_id) facts = put_key facts "last_order_id" order_id

  -- The facts after a user's message.
  unfoldable pub facts_after : List (String × String) → String → List (String × String)
  facts_after facts content =
      let found = order_fact (find_order content) facts in
      if occurs_in "发票" content || occurs_in "invoice" content
      then put_key found "billing_topic" "invoice"
      else found

  -- `" / ".join(msg.content for msg in messages[-4:] if msg.role == Role.user)`
  unfoldable pub recent_concerns : List Message → String
  recent_concerns messages =
      join_text " / "
        (map (λ m. m.content) (select (λ m. is_user m.role) (last_elements 4 messages)))

  -- _update_thread_state
  unfoldable pub update_thread_state : ConversationState → String → ConversationState
  update_thread_state state content = record state {
    facts = facts_after state.facts content;
    working_summary =
        if leb 4 (length state.messages)
        then before "Recent user concerns: " (take_text 240 (recent_concerns state.messages))
        else state.working_summary;
  }

  -- What add_message makes of the state.
  unfoldable pub remember : ConversationState → Message → ℕ → ConversationState
  remember state message now =
      let longer = record state { messages = state.messages ++ message ∷ []; updated_at = now } in
      if is_user message.role then update_thread_state longer message.content else longer

  -- A state with a message more, in its place.
  abbrev pub stored_message :
      ConversationMemory
      → Message
      → ℕ
      → Result MemoryError ConversationState
      → Result MemoryError ConversationMemory
  stored_message memory message now (err raised) = err raised
  stored_message memory message now (ok state) =
      ok (with_state memory message.conversation_id (remember state message now))

  unfoldable pub add_message :
      ConversationMemory → Message → ℕ → Result MemoryError ConversationMemory
  add_message memory message now =
      stored_message memory message now
        (get_or_create memory message.tenant_id message.conversation_id message.user_id now)

-- visible_context, or the KeyError of a conversation that is not in memory
unfoldable pub visible_context : ConversationMemory → String → ℕ → Option (List Message)
visible_context memory conversation_id window = elim (get_key memory.states conversation_id) [
  | none ↦ none
  | some state ↦ some (last_elements window state.messages)
]

-- remember_profile_fact
unfoldable pub remember_profile_fact :
    ConversationMemory → String → String → String → ConversationMemory
remember_profile_fact memory user_id key value = record memory {
  profile_facts =
      put_key memory.profile_facts user_id
        (put_key (value_or (get_key memory.profile_facts user_id) []) key value);
}
