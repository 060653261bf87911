-- ===== src/Agent/Runner/Tests.antt =====
-- The theorems on runs and transcripts at a concrete model that calls one tool and then ends.
use kubernetes_agent.Base.{
  ℕ, zero, suc, ◌+◌, ◌*◌, ◌/◌, ◌≤◌, ◌<◌, ◌≡◌, refl, ◌⊎◌, String, List, [], ◌∷◌, ◌++◌, Option, none,
  some, Result, ok, length,
}
use kubernetes_agent.Json.{Json}
use kubernetes_agent.Store.Messages
use kubernetes_agent.Agent.Transcript.{Message, text, truncate, estimate_chars, limit_of}
use kubernetes_agent.Agent.Transcript.Truncation.{IsTruncated, truncate-IsTruncated}
use kubernetes_agent.Agent.Runner.{
  RunError, Call, Item, token_item, call_item, end_item, Env, RunState, new_turn, consume, run,
}
use kubernetes_agent.Agent.Runner.Pairs.{IsPaired, consume-IsPaired}
use kubernetes_agent.Agent.Runner.Limit.{run-chats}
use kubernetes_agent.Agent.History.Lossy.{IsUserRow}

abbrev a_call : Call
a_call = record { id = "1"; name = "k8s_get"; input = "{}" }

abbrev calling : List Item
calling = token_item "looking" ∷ call_item a_call ∷ end_item ∷ []

-- the first answer calls a tool, and every later one ends; the state counts the answers
abbrev answer : ℕ → Result RunError (List Item) × ℕ
answer zero = (ok calling, 1)
answer (suc n) = (ok (token_item "done" ∷ end_item ∷ []), suc (suc n))

abbrev env : Env ℕ
env = record {
  chat = λ msgs n. answer n;
  tools = ("k8s_get", λ c n. (ok "{\"kind\":\"Pod\"}", n)) ∷ [];
  insert = none;
  as_json = λ s. s;
  not_registered = λ name. "agent: tool not registered";
}

abbrev two_messages : List Message
two_messages =
    record { role = "system"; parts = text "be careful" ∷ [] }
    ∷ record { role = "user"; parts = text "list pods" ∷ [] }
    ∷ []

abbrev first_state : RunState ℕ
first_state = record { world = 0; msgs = two_messages; events = []; chats = 0 }

run-chats_example : (run env 0 0 first_state).1.chats ≤ 0 + 32 * 2
run-chats_example = run-chats env 0 0 first_state

consume-IsPaired_example : IsPaired (consume env calling (new_turn 0 [])).1
consume-IsPaired_example = consume-IsPaired env calling 0 []

abbrev long_talk : List Message
long_talk =
    two_messages
    ++ record { role = "assistant"; parts = text "here they are" ∷ [] }
      ∷ record { role = "user"; parts = text "and the services" ∷ [] }
      ∷ []

truncate-IsTruncated_example :
    ((estimate_chars long_talk / 4 ≤ limit_of 8) × (truncate 8 long_talk ≡ long_talk))
    ⊎ ((limit_of 8 < estimate_chars long_talk / 4)
        × (((length long_talk ≤ 2) × (truncate 8 long_talk ≡ long_talk))
            ⊎ IsTruncated (limit_of 8) long_talk (truncate 8 long_talk)))
truncate-IsTruncated_example = truncate-IsTruncated 8 long_talk

abbrev user_row : Messages.Message
user_row = record {
  id = "m";
  session_id = "s";
  role = "user";
  content = some "list pods";
  tool_calls = none;
  tool_call_id = none;
  reasoning = none;
  created_at = 1;
  source = "user";
}

abbrev no_json : String → Option Json
no_json s = none

user_row-IsUserRow : IsUserRow no_json "list pods" user_row
user_row-IsUserRow = record { role = refl; content = refl; reasoning = refl; tool_calls = refl }
