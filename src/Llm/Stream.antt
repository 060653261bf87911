-- ===== src/Llm/Stream.antt =====
-- convertStreamPart of internal/llm/fantasy.go, and fantasyStream of internal/llm/anthropic.go while
-- its context lasts: a context that ends leaves some first events of these.
pub mod Whole
use kubernetes_agent.Base.{
  ℕ, String, Bool, true, false, List, [], ◌∷◌, ◌++◌, Option, none, some, Result, ok, err, map,
}
use kubernetes_agent.Text.{codes}
use kubernetes_agent.Llm.Splitter.{Event, token, reasoning, Splitter, zero_splitter, feed, flush}

-- ToolCall of internal/llm/client.go
pub record ToolCall : Type 0 where
  pub id : String
  pub name : String
  pub input : String

-- what the library streams, by its kinds: those that are passed on, and the others
pub data StreamPart : Type 0 where
  text_delta reasoning_delta : List ℕ → StreamPart
  tool_call_part : ToolCall → StreamPart
  finish_part : ℕ → ℕ → StreamPart
  error_part : Option String → StreamPart
  other_part : StreamPart

-- Event of internal/llm/stream.go, with the kinds that a stream has
pub data StreamEvent : Type 0 where
  text_event : Event → StreamEvent
  tool_call_event : ToolCall → StreamEvent
  message_end : ℕ → ℕ → StreamEvent
  error_event : String → StreamEvent

abbrev pub reason_of : Option String → String
reason_of none = ""
reason_of (some e) = e

-- convertStreamPart
unfoldable pub convert_stream_part : StreamPart → Option StreamEvent
convert_stream_part (text_delta s) = some (text_event (token s))
convert_stream_part (reasoning_delta s) = some (text_event (reasoning s))
convert_stream_part (tool_call_part c) = some (tool_call_event c)
convert_stream_part (finish_part m n) = some (message_end m n)
convert_stream_part (error_part e) = some (error_event (reason_of e))
convert_stream_part other_part = none

module _ (orbit : ℕ → ℕ) where
  -- the events of one event of the library: a token goes through the splitter
  abbrev pub split_event : Splitter → Option StreamEvent → List StreamEvent × Splitter
  unfolding feed
  split_event s none = ([], s)
  split_event s (some (text_event (token delta))) =
      let r = feed orbit s delta in (map text_event r.0, r.1)
  split_event s (some (text_event (reasoning t))) = (text_event (reasoning t) ∷ [], s)
  split_event s (some (tool_call_event c)) = (tool_call_event c ∷ [], s)
  split_event s (some (message_end m n)) = (message_end m n ∷ [], s)
  split_event s (some (error_event e)) = (error_event e ∷ [], s)

  -- the goroutine of start: the parts in turn, then what the splitter holds
  unfoldable pub pump : Splitter → List StreamPart → List StreamEvent
  unfolding convert_stream_part split_event flush
  pump s [] = map text_event (flush s).0
  pump s (p ∷ parts) = let r = split_event s (convert_stream_part p) in r.0 ++ pump r.1 parts

  -- the channel, and the error that the stream could not be opened with
  pub record FantasyStream : Type 0 where
    pub events : List StreamEvent
    pub failed : Option String

  -- start
  unfoldable pub start : Result String (List StreamPart) → FantasyStream
  unfolding pump
  start (err e) = record { events = []; failed = some e }
  start (ok parts) = record { events = pump zero_splitter parts; failed = none }

  pub data Next : Type 0 where
    event : StreamEvent → Next
    stream_failed : String → Next
    eof : Next

  -- Next
  abbrev pub at_end : Option String → Next
  at_end none = eof
  at_end (some e) = stream_failed e

  abbrev pub next_of : List StreamEvent → Option String → Next × List StreamEvent
  next_of [] failed = (at_end failed, [])
  next_of (e ∷ events) failed = (event e, events)

  unfoldable pub next : FantasyStream → Next × FantasyStream
  next s = let r = next_of s.events s.failed in (r.0, record s { events = r.1 })
