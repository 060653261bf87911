-- ===== src/Llm/Prompt/Kept.antt =====
-- Tool calls and their results in a prompt.
use kubernetes_agent.Base.{
  String, true, false, List, [], ◌∷◌, ◌++◌, ◌≡◌, refl, ap, ◌∙◌, inl, inr, Bool-cases, ◌==◌,
  if◌then◌else◌,
}
use kubernetes_agent.Agent.Transcript.{Part, text, reasoning, tool_call, tool_result, Message}
use kubernetes_agent.Llm.Prompt.{
  PromptPart, text_part, reasoning_part, tool_call_part, tool_result_part, PromptMessage,
  prompt_part, prompt_parts, system_text, prompt_message, cons_message, to_fantasy_prompt,
}

-- the ids of the calls and of the results, in order
pub record Ids : Type 0 where
  pub calls : List String
  pub results : List String

abbrev pub no_ids : Ids
no_ids = record { calls = []; results = [] }

abbrev pub part_ids : Part → Ids → Ids
part_ids (text s) i = i
part_ids (reasoning s) i = i
part_ids (tool_call id name input) i = record i { calls = id ∷ i.calls }
part_ids (tool_result id name output is_error) i = record i { results = id ∷ i.results }

abbrev pub parts_ids : List Part → Ids → Ids
parts_ids [] i = i
parts_ids (p ∷ ps) i = part_ids p (parts_ids ps i)

abbrev pub prompt_part_ids : PromptPart → Ids → Ids
prompt_part_ids (text_part s) i = i
prompt_part_ids (reasoning_part s) i = i
prompt_part_ids (tool_call_part id name input) i = record i { calls = id ∷ i.calls }
prompt_part_ids (tool_result_part id output) i = record i { results = id ∷ i.results }

abbrev pub prompt_parts_ids : List PromptPart → Ids → Ids
prompt_parts_ids [] i = i
prompt_parts_ids (p ∷ ps) i = prompt_part_ids p (prompt_parts_ids ps i)

-- those of the messages that are not system messages
unfoldable pub ids : List Message → Ids
ids [] = no_ids
ids (m ∷ ms) = if m.role == "system" then ids ms else parts_ids m.parts (ids ms)

unfoldable pub prompt_ids : List PromptMessage → Ids
prompt_ids [] = no_ids
prompt_ids (m ∷ ms) = prompt_parts_ids m.content (prompt_ids ms)

prompt_part_kept :
    (p : Part) (qs : List PromptPart) (i : Ids)
    → prompt_parts_ids (prompt_part p ++ qs) i ≡ part_ids p (prompt_parts_ids qs i)
prompt_part_kept (text s) qs i = elim (Bool-cases (s == "")) [ inl e ↦ rw e | inr e ↦ rw e ]
prompt_part_kept (reasoning s) qs i = elim (Bool-cases (s == "")) [ inl e ↦ rw e | inr e ↦ rw e ]
prompt_part_kept (tool_call id name input) qs i = refl
prompt_part_kept (tool_result id name output is_error) qs i = refl

prompt_parts_kept :
    (ps : List Part) (i : Ids) → prompt_parts_ids (prompt_parts ps) i ≡ parts_ids ps i
unfolding prompt_parts
prompt_parts_kept [] i = refl
prompt_parts_kept (p ∷ ps) i =
    prompt_part_kept p (prompt_parts ps) i ∙ ap (part_ids p) (prompt_parts_kept ps i)

system_kept :
    (m : Message) (rest : List PromptMessage)
    → (m.role == "system") ≡ true
    → prompt_ids (cons_message (prompt_message m) rest) ≡ prompt_ids rest
unfolding prompt_ids prompt_message
system_kept m rest h = elim (Bool-cases (system_text "" m.parts == "")) [
  | inl e ↦ rw (h, e)
  | inr e ↦ rw (h, e)
]

spoken_kept :
    (m : Message) (rest : List PromptMessage)
    → (m.role == "system") ≡ false
    → prompt_ids (cons_message (prompt_message m) rest) ≡ parts_ids m.parts (prompt_ids rest)
unfolding prompt_ids prompt_message
spoken_kept m rest h = rw h (prompt_parts_kept m.parts (prompt_ids rest))

-- A prompt has the tool calls and the tool results of the messages that are not system messages, all of
-- them, with their ids and in order.
pub to_fantasy_prompt-ids : (ms : List Message) → prompt_ids (to_fantasy_prompt ms) ≡ ids ms
unfolding prompt_ids ids to_fantasy_prompt
to_fantasy_prompt-ids [] = refl
to_fantasy_prompt-ids (m ∷ ms) = elim (Bool-cases (m.role == "system")) [
  | inl e ↦ system_kept m (to_fantasy_prompt ms) e ∙ rw e (to_fantasy_prompt-ids ms)
  | inr e ↦
      spoken_kept m (to_fantasy_prompt ms) e
      ∙ rw e (ap (parts_ids m.parts) (to_fantasy_prompt-ids ms))
]
