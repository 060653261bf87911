-- ===== src/Store/Tests.antt =====
-- The theorem on messages at a concrete table.
use kubernetes_agent.Base.{ℕ, ◌≡◌, refl, String, [], ◌∷◌, ◌++◌, none, some, map, ok}
use kubernetes_agent.Store.Messages.{
  Message, SessionRow, Tables, filled, batch_insert_messages, list_messages_by_session,
}
use kubernetes_agent.Store.Messages.Append.{batch_insert_messages-list}

abbrev message : String → String → Message
message id session = record {
  id = id;
  session_id = session;
  role = "user";
  content = some "hi";
  tool_calls = none;
  tool_call_id = none;
  reasoning = none;
  created_at = 0;
  source = "";
}

abbrev session : String → ℕ → SessionRow
session id updated = record {
  id = id;
  title = "t";
  cluster_id = none;
  created_at = 1;
  updated_at = updated;
}

abbrev before : Tables
before = record { sessions = session "s" 1 ∷ session "u" 1 ∷ []; messages = [] }

abbrev after : Tables
unfolding filled
after = record {
  sessions = session "s" 9 ∷ session "u" 1 ∷ [];
  messages = filled 9 (message "m1" "s") ∷ filled 9 (message "m2" "s") ∷ [];
}

inserted : batch_insert_messages 9 (message "m1" "s" ∷ message "m2" "s" ∷ []) before ≡ ok after
unfolding batch_insert_messages filled
inserted = refl

batch_insert_messages-list_example :
    list_messages_by_session "s" after.messages
    ≡ list_messages_by_session "s" []
      ++ list_messages_by_session "s" (map (filled 9) (message "m1" "s" ∷ message "m2" "s" ∷ []))
batch_insert_messages-list_example =
    batch_insert_messages-list 9 (message "m1" "s" ∷ message "m2" "s" ∷ []) before after "s"
      inserted
