-- ===== src/Agent/History.antt =====
-- How Runner.Run of internal/agent/agent.go sets a transcript up from the stored messages, and
-- persistTurn's way back; `parse` is json.Unmarshal into `any`, and `encode_calls` and
-- `encode_result` are json.Marshal on the maps that persistTurn builds.
pub mod Lossy
use Prim.Native.String.{◌++◌}
use mathlib.Core.List
use kubernetes_agent.Base.{
  ℕ, suc, String, Bool, true, false, List, [], ◌∷◌, Option, none, some, map, length, ltb, ◌==◌,
  if◌then◌else◌,
}
use kubernetes_agent.Json.{Json, null, arr, obj, Items, nil, cons, Fields, get, as_string, as_bool}
use kubernetes_agent.Store.Messages.{filled}
use kubernetes_agent.Store.Messages
use kubernetes_agent.Agent.Transcript.{Part, text, reasoning, tool_call, tool_result, Message}

-- a column that holds a text that is not empty
abbrev pub text_of : Option String → String
text_of none = ""
text_of (some s) = s

abbrev pub if_text : String → Part → List Part
if_text s p = if s == "" then [] else p ∷ []

-- one element of the stored tool calls. The assertion of `input` to json.RawMessage never holds of a
-- decoded value, so the input is nil.
abbrev pub stored_call : Fields → Part
stored_call c = tool_call (as_string (get "id" c)) (as_string (get "name" c)) ""

abbrev pub add_part : Part → Option (List Part) → Option (List Part)
add_part p none = none
add_part p (some ps) = some (p ∷ ps)

abbrev pub or_none : Option (List Part) → List Part
or_none none = []
or_none (some ps) = ps

-- json.Unmarshal into a slice of maps: a null is a nil map, and any other element that is no object
-- fails the whole
abbrev pub objects : Items → Option (List Part)
objects nil = some []
objects (cons (obj c) items) = add_part (stored_call c) (objects items)
objects (cons null items) = add_part (tool_call "" "" "") (objects items)
objects (cons x items) = none

abbrev pub decoded_calls : Option Json → List Part
decoded_calls (some (arr items)) = or_none (objects items)
decoded_calls _ = []

abbrev pub decoded_result : Option Json → List Part
decoded_result (some (obj r)) =
    tool_result (as_string (get "tool_call_id" r)) (as_string (get "name" r))
      (as_string (get "output" r)) (as_bool (get "is_error" r))
    ∷ []
decoded_result (some null) = tool_result "" "" "" false ∷ []
decoded_result _ = []

module _ (parse : String → Option Json) where
  -- contentToParts
  unfoldable pub content_to_parts : Messages.Message → List Part
  unfolding get
  content_to_parts m = List.◌++◌ (if_text (text_of m.content) (text (text_of m.content))) (
      List.◌++◌ (if_text (text_of m.reasoning) (reasoning (text_of m.reasoning))) (
        List.◌++◌
          (if text_of m.tool_calls == "" then [] else decoded_calls (parse (text_of m.tool_calls)))
          (if m.role == "tool"
            then (if text_of m.content == ""
                then []
                else decoded_result (parse (text_of m.content)))
            else [])))

  abbrev pub one_message : String → List Part → List Message
  one_message role [] = []
  one_message role (p ∷ ps) = record { role = role; parts = p ∷ ps } ∷ []

  unfoldable pub history : List Messages.Message → List Message
  unfolding content_to_parts
  history [] = []
  history (m ∷ rows) = List.◌++◌ (one_message m.role (content_to_parts m)) (history rows)

  -- systemPrompt; `base` is llm.SystemPrompt
  abbrev pub system_prompt : String → String → String → String
  system_prompt base own skills =
      let prompt = if own == "" then base else own in
      if skills == "" then prompt else skills ++ ("\n\n" ++ prompt)

  -- `msgs` before the first step; the rows are those of ListMessagesBySession
  unfoldable pub first_transcript : String → List Messages.Message → String → List Message
  unfolding history
  first_transcript prompt rows user =
      record { role = "system"; parts = text prompt ∷ [] }
      ∷ List.◌++◌ (history rows) (record { role = "user"; parts = text user ∷ [] } ∷ [])

-- the texts of one type, joined
abbrev pub joined_text : List Part → String
joined_text [] = ""
joined_text (text s ∷ ps) = s ++ joined_text ps
joined_text (p ∷ ps) = joined_text ps

abbrev pub joined_reasoning : List Part → String
joined_reasoning [] = ""
joined_reasoning (reasoning s ∷ ps) = s ++ joined_reasoning ps
joined_reasoning (p ∷ ps) = joined_reasoning ps

abbrev pub calls_of : List Part → List Part
calls_of [] = []
calls_of (tool_call id name input ∷ ps) = tool_call id name input ∷ calls_of ps
calls_of (p ∷ ps) = calls_of ps

abbrev pub optional : String → Option String
optional s = if s == "" then none else some s

-- persistTurn's rows; `ids` are the values of uuid.NewString in turn
module _ (encode_calls : List Part → String) (encode_result : Part → String) where
  abbrev pub call_text : List Part → Option String
  call_text [] = none
  call_text (c ∷ cs) = some (encode_calls (c ∷ cs))

  abbrev pub result_id : Part → String
  result_id (tool_result id name output is_error) = id
  result_id _ = ""

  abbrev pub blank_row : (ℕ → String) → ℕ → ℕ → String → String → Messages.Message
  blank_row ids i now session role = record {
    id = ids i;
    session_id = session;
    role = role;
    content = none;
    tool_calls = none;
    tool_call_id = none;
    reasoning = none;
    created_at = now;
    source = "";
  }

  abbrev pub result_rows : (ℕ → String) → ℕ → ℕ → String → List Part → List Messages.Message
  result_rows ids i now session [] = []
  result_rows ids i now session (p ∷ ps) =
      record (blank_row ids i now session "tool") {
        content = some (encode_result p);
        tool_call_id = some (result_id p);
      }
      ∷ result_rows ids (suc i) now session ps

  unfoldable pub turn_rows :
      (ℕ → String) → ℕ → String → List Part → List Part → List Messages.Message
  turn_rows ids now session assistant results =
      record (blank_row ids 0 now session "assistant") {
        content = optional (joined_text assistant);
        reasoning = optional (joined_reasoning assistant);
        tool_calls = call_text (calls_of assistant);
      }
      ∷ result_rows ids 1 now session results
