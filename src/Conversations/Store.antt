-- ===== src/Conversations/Store.antt =====
-- src/memory/inmemory.py: the store is a map from ids to conversations.
use delaxis.Prelude.{ℕ, String, ◌==◌, Bool, true, false, Option, none, some, if◌then◌else◌}
use delaxis.Prelude.Outcome.{Outcome, ret, raise, out_of_fuel}
use delaxis.Conversations.{
  ConversationState, Sessions, new_conversation, create_session, update_session, delete_session,
  clear_all,
}

-- The calls that change the store.
pub data Call : Type 0 where
  create : String → ℕ → Call
  update : ConversationState → Call
  delete : String → Call
  clear : Call

-- What a call answers.
pub data Reply : Type 0 where
  created : ConversationState → Reply
  updated no_session cleared : Reply
  deleted : Bool → Reply

unfoldable pub after_update : Sessions → Outcome Sessions → Sessions × Reply
after_update s (ret s') = (s', updated)
after_update s (raise e) = (s, no_session)
after_update s out_of_fuel = (s, no_session)

unfoldable pub serve : Call → Sessions → Sessions × Reply
serve (create id now) s = let (s', c) = create_session id now s in (s', created c)
serve (update c) s = after_update s (update_session c s)
serve (delete id) s = let (s', b) = delete_session id s in (s', deleted b)
serve clear s = (clear_all s, cleared)

-- The same on a map: what it holds at an id after the call, and the answer.
unfoldable pub is_some : Option ConversationState → Bool
is_some none = false
is_some (some c) = true

unfoldable pub mapped :
    Call → (String → Option ConversationState) → String → Option ConversationState
mapped (create id now) m i = if id == i then some (new_conversation id now) else m i
mapped (update c) m i = if c.session_id == i then (if is_some (m i) then some c else none) else m i
mapped (delete id) m i = if id == i then none else m i
mapped clear m i = none

unfoldable pub answer : Call → (String → Option ConversationState) → Reply
answer (create id now) m = created (new_conversation id now)
answer (update c) m = if is_some (m c.session_id) then updated else no_session
answer (delete id) m = deleted (is_some (m id))
answer clear m = cleared
