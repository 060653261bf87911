-- ===== src/Llm/Prompt.antt =====
-- toFantasyPrompt and toFantasyTools of internal/llm/fantasy.go. A content part has one of the four
-- kinds here, so the error of an unknown kind does not arise.
pub mod Kept
use mathlib.Core.List
use Prim.Native.String.{◌++◌}
use kubernetes_agent.Base.{
  ℕ, String, Bool, true, false, List, [], ◌∷◌, Option, none, some, ◌==◌, if◌then◌else◌,
}
use kubernetes_agent.Json.{Json, str, obj, Fields, end, field, get, as_map}
use kubernetes_agent.Agent.Transcript.{Part, text, reasoning, tool_call, tool_result, Message}

-- fantasy.MessagePart, as it is filled here
pub data PromptPart : Type 0 where
  text_part reasoning_part : String → PromptPart
  tool_call_part : String → String → String → PromptPart
  tool_result_part : String → String → PromptPart

-- fantasy.Message
pub record PromptMessage : Type 0 where
  pub role : String
  pub content : List PromptPart

-- `s += "\n"` where there is some text, and then the next one
abbrev pub with_line : String → String → String
with_line acc s = if acc == "" then s else acc ++ ("\n" ++ s)

-- the text of a system message
unfoldable pub system_text : String → List Part → String
system_text acc [] = acc
system_text acc (text s ∷ ps) = system_text (with_line acc s) ps
system_text acc (reasoning s ∷ ps) = system_text acc ps
system_text acc (tool_call id name input ∷ ps) = system_text acc ps
system_text acc (tool_result id name output is_error ∷ ps) = system_text acc ps

-- the parts that one content part gives
abbrev pub unless_empty : String → PromptPart → List PromptPart
unless_empty s p = if s == "" then [] else p ∷ []

abbrev pub prompt_part : Part → List PromptPart
prompt_part (text s) = unless_empty s (text_part s)
prompt_part (reasoning s) = unless_empty s (reasoning_part s)
prompt_part (tool_call id name input) =
    tool_call_part id name (if input == "" then "{}" else input) ∷ []
prompt_part (tool_result id name output is_error) =
    tool_result_part id (if is_error then "ERROR: " ++ output else output) ∷ []

unfoldable pub prompt_parts : List Part → List PromptPart
prompt_parts [] = []
prompt_parts (p ∷ ps) = List.◌++◌ (prompt_part p) (prompt_parts ps)

-- the message that a message gives, if one
unfoldable pub prompt_message : Message → Option PromptMessage
unfolding system_text prompt_parts
prompt_message m =
    if m.role == "system"
    then (let s = system_text "" m.parts in
        if s == "" then none else some (record { role = "system"; content = text_part s ∷ [] }))
    else some (record { role = m.role; content = prompt_parts m.parts })

abbrev pub cons_message : Option PromptMessage → List PromptMessage → List PromptMessage
cons_message none rest = rest
cons_message (some m) rest = m ∷ rest

-- toFantasyPrompt, but its second result, which no caller reads
unfoldable pub to_fantasy_prompt : List Message → List PromptMessage
unfolding prompt_message
to_fantasy_prompt [] = []
to_fantasy_prompt (m ∷ ms) = cons_message (prompt_message m) (to_fantasy_prompt ms)

-- Tool of internal/llm/client.go, but its handler; an absent schema is `end`
pub record Tool : Type 0 where
  pub name : String
  pub description : String
  pub input_schema : Fields

abbrev pub or_end : Option Fields → Fields
or_end none = end
or_end (some m) = m

abbrev pub with_required : Option Json → Fields → Fields
with_required none m = m
with_required (some r) m = field "required" r m

unfoldable pub to_fantasy_tool : Tool → Tool
unfolding get
to_fantasy_tool t = record t {
  input_schema = with_required (get "required" t.input_schema) (
      field "type" (str "object")
        (field "properties" (obj (or_end (as_map (get "properties" t.input_schema)))) end));
}

-- toFantasyTools
unfoldable pub to_fantasy_tools : List Tool → List Tool
unfolding to_fantasy_tool
to_fantasy_tools [] = []
to_fantasy_tools (t ∷ ts) = to_fantasy_tool t ∷ to_fantasy_tools ts
