-- ===== src/Llm/Tests.antt =====
-- The theorems on the splitter at concrete streams.
use kubernetes_agent.Base.{ℕ, ◌≡◌, refl, true, false, List, [], ◌∷◌}
use kubernetes_agent.Text.{codes}
use kubernetes_agent.Llm.Splitter.{
  zero_splitter, token, reasoning, Splitter, find_tag, feed, split_stream,
}
use kubernetes_agent.Llm.Splitter.Strips.{Strips}
use kubernetes_agent.Llm.Stream.{
  ToolCall, StreamPart, text_delta, reasoning_delta, tool_call_part, finish_part, text_event,
  message_end, pump,
}
use kubernetes_agent.Agent.Transcript.{Message, text, tool_call, tool_result}
use kubernetes_agent.Llm.Prompt.{to_fantasy_prompt}
use kubernetes_agent.Llm.Prompt.Kept.{prompt_ids, ids, to_fantasy_prompt-ids}

abbrev no_orbit : ℕ → ℕ
no_orbit c = c

abbrev deltas : List (List ℕ)
deltas = codes "a<Th" ∷ codes "ink>b" ∷ codes "c</think>d" ∷ []

-- a tag that is cut between two deltas is found
two_deltas :
    split_stream no_orbit deltas
    ≡ token (codes "a") ∷ reasoning (codes "bc") ∷ token (codes "d") ∷ []
unfolding split_stream find_tag
two_deltas = refl

abbrev a_call : ToolCall
a_call = record { id = "1"; name = "k8s_get"; input = "{}" }

abbrev parts : List StreamPart
parts =
    text_delta (codes "a<Th")
    ∷ reasoning_delta (codes "hm")
    ∷ text_delta (codes "ink>b</think>c")
    ∷ tool_call_part a_call
    ∷ finish_part 1 2
    ∷ []

-- what the splitter still holds is sent after the end of the message
late_flush :
    pump no_orbit zero_splitter (text_delta (codes "a <") ∷ finish_part 1 2 ∷ [])
    ≡ text_event (token (codes "a ")) ∷ message_end 1 2 ∷ text_event (token (codes "<")) ∷ []
unfolding pump feed find_tag
late_flush = refl

abbrev transcript : List Message
transcript =
    record { role = "system"; parts = text "be careful" ∷ [] }
    ∷ record { role = "assistant"; parts = text "" ∷ tool_call "1" "k8s_get" "" ∷ [] }
    ∷ record { role = "tool"; parts = tool_result "1" "k8s_get" "not found" true ∷ [] }
    ∷ []

to_fantasy_prompt-ids_example : prompt_ids (to_fantasy_prompt transcript) ≡ ids transcript
to_fantasy_prompt-ids_example = to_fantasy_prompt-ids transcript

abbrev holding : Splitter
holding = record { inside = false; buf = codes "<th"; reasoning = [] }
