-- ===== src/Llm/Stream/Whole.antt =====
-- What of the library's parts a stream has.
use kubernetes_agent.Base.{ℕ, List, [], ◌∷◌, ◌++◌}
use kubernetes_agent.Llm.Splitter.{Event, Splitter, flush, feed_all}
use kubernetes_agent.Llm.Splitter.Counts.{count, texts}
use kubernetes_agent.Llm.Splitter.Strips.{Strips}
use kubernetes_agent.Llm.Stream.{
  StreamPart, text_delta, reasoning_delta, tool_call_part, finish_part, error_part, other_part,
  StreamEvent, text_event, tool_call_event, message_end, error_event, reason_of,
}

-- the text deltas, and the text of the reasoning deltas
abbrev pub deltas_of : List StreamPart → List (List ℕ)
deltas_of [] = []
deltas_of (text_delta s ∷ ps) = s ∷ deltas_of ps
deltas_of (reasoning_delta s ∷ ps) = deltas_of ps
deltas_of (tool_call_part c ∷ ps) = deltas_of ps
deltas_of (finish_part m n ∷ ps) = deltas_of ps
deltas_of (error_part e ∷ ps) = deltas_of ps
deltas_of (other_part ∷ ps) = deltas_of ps

abbrev pub reasoned : List StreamPart → List ℕ
reasoned [] = []
reasoned (text_delta s ∷ ps) = reasoned ps
reasoned (reasoning_delta s ∷ ps) = s ++ reasoned ps
reasoned (tool_call_part c ∷ ps) = reasoned ps
reasoned (finish_part m n ∷ ps) = reasoned ps
reasoned (error_part e ∷ ps) = reasoned ps
reasoned (other_part ∷ ps) = reasoned ps

-- the parts that are passed on as they are, as events
abbrev pub signals : List StreamPart → List StreamEvent
signals [] = []
signals (text_delta s ∷ ps) = signals ps
signals (reasoning_delta s ∷ ps) = signals ps
signals (tool_call_part c ∷ ps) = tool_call_event c ∷ signals ps
signals (finish_part m n ∷ ps) = message_end m n ∷ signals ps
signals (error_part e ∷ ps) = error_event (reason_of e) ∷ signals ps
signals (other_part ∷ ps) = signals ps

-- the events with a text, and the others
abbrev pub texted : List StreamEvent → List Event
texted [] = []
texted (text_event e ∷ es) = e ∷ texted es
texted (tool_call_event c ∷ es) = texted es
texted (message_end m n ∷ es) = texted es
texted (error_event e ∷ es) = texted es

abbrev pub untexted : List StreamEvent → List StreamEvent
untexted [] = []
untexted (text_event e ∷ es) = untexted es
untexted (tool_call_event c ∷ es) = tool_call_event c ∷ untexted es
untexted (message_end m n ∷ es) = message_end m n ∷ untexted es
untexted (error_event e ∷ es) = error_event e ∷ untexted es

module _ (orbit : ℕ → ℕ) where
  -- what the splitter makes of some deltas and the end
  abbrev pub split_rest : Splitter → List (List ℕ) → List Event
  split_rest s ds = (feed_all orbit s ds).0 ++ (flush (feed_all orbit s ds).1).0

  -- how often a character occurs in some events
  abbrev pub occurs : ℕ → List Event → ℕ
  occurs c es = count c (texts es)
