-- ===== src/Conversations.antt =====
-- src/memory/inmemory.py and src/memory/models.py: conversations, and the store that keeps them in a
-- dictionary. Fresh ids and the time are arguments.
pub mod Store
use delaxis.Prelude.{
  ℕ, suc, String, ◌==◌, Bool, true, false, Option, none, some, List, [], ◌∷◌, ◌++◌, contains,
  lookup, keys, if◌then◌else◌,
}
use delaxis.Prelude.Outcome.{Outcome, ret, raise, value_error}
use delaxis.ExecutionEvents.Operations.{set_key}

pub data MessageRole : Type 0 where
  user assistant system agent : MessageRole

unfoldable pub same_role : MessageRole → MessageRole → Bool
same_role user user = true
same_role assistant assistant = true
same_role system system = true
same_role agent agent = true
same_role _ _ = false

pub record Message : Type 0 where
  pub id : String
  pub role : MessageRole
  pub content : String
  pub timestamp : ℕ

pub record ConversationState : Type 0 where
  pub session_id : String
  pub messages : List Message
  pub turn_count : ℕ
  pub active : Bool
  pub created_at : ℕ
  pub updated_at : ℕ

abbrev pub new_conversation : String → ℕ → ConversationState
new_conversation id now = record {
  session_id = id;
  messages = [];
  turn_count = 0;
  active = true;
  created_at = now;
  updated_at = now;
}

unfoldable pub add_message :
    String → ℕ → MessageRole → String → ConversationState → ConversationState
add_message id now role content c = record c {
  messages = c.messages ++ record { id = id; role = role; content = content; timestamp = now } ∷ [];
  updated_at = now;
}

unfoldable pub increment_turn : ℕ → ConversationState → ConversationState
increment_turn now c = record c { turn_count = suc c.turn_count; updated_at = now }

unfoldable pub messages_by_role : MessageRole → List Message → List Message
messages_by_role role [] = []
messages_by_role role (m ∷ messages) =
    let rest = messages_by_role role messages in if same_role m.role role then m ∷ rest else rest

-- `_sessions`
abbrev pub Sessions : Type 0
Sessions = List (String × ConversationState)

unfoldable pub create_session : String → ℕ → Sessions → Sessions × ConversationState
create_session id now s = (set_key id (new_conversation id now) s, new_conversation id now)

unfoldable pub get_session : String → Sessions → Option ConversationState
get_session id s = lookup id s

unfoldable pub update_session : ConversationState → Sessions → Outcome Sessions
update_session c s =
    if contains c.session_id (keys s) then ret (set_key c.session_id c s) else raise value_error

-- `del d[k]`
unfoldable pub delete_key {ℓ} : {V : Type ℓ} → String → List (String × V) → List (String × V)
delete_key k [] = []
delete_key k ((j, v) ∷ d) = let rest = delete_key k d in if j == k then d else (j, v) ∷ rest

unfoldable pub delete_session : String → Sessions → Sessions × Bool
delete_session id s = if contains id (keys s) then (delete_key id s, true) else (s, false)

unfoldable pub active_sessions : Sessions → List ConversationState
active_sessions [] = []
active_sessions ((i, c) ∷ s) = let rest = active_sessions s in if c.active then c ∷ rest else rest

unfoldable pub all_sessions : Sessions → List ConversationState
all_sessions [] = []
all_sessions ((i, c) ∷ s) = c ∷ all_sessions s

unfoldable pub list_sessions : Bool → Sessions → List ConversationState
list_sessions true s = active_sessions s
list_sessions false s = all_sessions s

unfoldable pub clear_all : Sessions → Sessions
clear_all s = []
