-- ===== src/Samples/Conversations.antt =====
-- Calls of the in-memory store of conversations.
use delaxis.Prelude.{[], ◌∷◌}
use delaxis.Conversations.{Sessions, new_conversation}

abbrev two_sessions : Sessions
two_sessions = ("s1", new_conversation "s1" 5) ∷ ("s2", new_conversation "s2" 6) ∷ []
