-- ===== src/Agent/Runner.antt =====
-- Runner.Run, consumeStream, dispatch and isRetryable of internal/agent/agent.go, over any client,
-- tools and store that keep a state `W`.
pub mod Pairs
pub mod Limit
pub mod Tests
use kubernetes_agent.Base.{
  ℕ, zero, suc, ◌+◌, String, Bool, true, false, ◌||◌, List, [], ◌∷◌, ◌++◌, Option, none, some,
  Result, ok, err, map, ◌==◌, if◌then◌else◌,
}
use kubernetes_agent.Text.{contains_text}
use kubernetes_agent.Agent.Transcript.{
  Part, text, reasoning, tool_call, tool_result, Message, truncate, to_llm_messages,
}

-- an error of a stream or of Chat: the context's, or one with a message
pub data RunError : Type 0 where
  canceled deadline_exceeded : RunError
  failed : String → RunError

pub record Call : Type 0 where
  pub id : String
  pub name : String
  pub input : String

-- What Next returns in turn; a stream whose items are used up returns io.EOF. A stream is a finite
-- list of these: one that never ends is not modelled.
pub data Item : Type 0 where
  token_item reasoning_item : String → Item
  call_item : Call → Item
  end_item : Item
  error_item : String → Item
  other_item : Item
  broken_item : RunError → Item

-- the events that `emit` is given; a full channel drops them
pub data Event : Type 0 where
  token_event reasoning_event : String → Event
  call_event : Call → Event
  result_event error_result_event : String → String → Event
  end_event : Event
  error_event : String → String → Bool → Event

-- `insert` is BatchInsertMessages on the rows of persistTurn, which are made of these parts, and
-- `as_json` the text itself if it is valid JSON and a string literal of it if not
pub record Env (W : Type 0) : Type 0 where
  pub chat : List Message → W → Result RunError (List Item) × W
  pub tools : List (String × (Call → W → Result String String × W))
  pub insert : Option (List Part → List Part → W → Result String (Unit {0}) × W)
  pub as_json : String → String
  pub not_registered : String → String

-- isRetryable
unfoldable pub is_retryable : RunError → Bool
unfolding contains_text
is_retryable canceled = false
is_retryable deadline_exceeded = false
is_retryable (failed msg) =
    if contains_text msg "status 401" || contains_text msg "status 403"
    then false
    else if contains_text msg "status 429"
    then true
    else if contains_text msg "status 5"
    then true
    else contains_text msg "connection refused"
      || contains_text msg "no such host"
      || contains_text msg "i/o timeout"
      || contains_text msg "EOF"

-- Error() of the context's errors
abbrev pub message_of : RunError → String
message_of canceled = "context canceled"
message_of deadline_exceeded = "context deadline exceeded"
message_of (failed msg) = msg

abbrev pub non_empty : String → String
non_empty out = if out == "" then "{}" else out

-- what consumeStream has gathered
pub record Turn (W : Type 0) : Type 0 where
  pub world : W
  pub assistant : List Part
  pub results : List Part
  pub events : List Event
  pub had_call : Bool

abbrev pub new_turn : {W : Type 0} → W → List Event → Turn W
new_turn w events = record {
  world = w;
  assistant = [];
  results = [];
  events = events;
  had_call = false;
}

module _ {W : Type 0} (env : Env W) where
  -- dispatch
  unfoldable pub dispatch_in :
      List (String × (Call → W → Result String String × W)) → Call → W → Result String String × W
  dispatch_in [] c w = (err (env.not_registered c.name), w)
  dispatch_in ((name, handler) ∷ tools) c w =
      if name == c.name then handler c w else dispatch_in tools c w

  abbrev pub with_text : Turn W → Event → Part → Turn W
  with_text t e p = record t { assistant = t.assistant ++ p ∷ []; events = t.events ++ e ∷ [] }

  abbrev pub answered : Call → Turn W → Result String String × W → Turn W
  answered c t (err e, w) = record t {
    world = w;
    assistant = t.assistant ++ tool_call c.id c.name c.input ∷ [];
    results = t.results ++ tool_result c.id c.name e true ∷ [];
    events = t.events ++ call_event c ∷ error_result_event c.id e ∷ [];
    had_call = true;
  }
  answered c t (ok output, w) = record t {
    world = w;
    assistant = t.assistant ++ tool_call c.id c.name c.input ∷ [];
    results = t.results ++ tool_result c.id c.name (non_empty output) false ∷ [];
    events = t.events ++ call_event c ∷ result_event c.id (env.as_json (non_empty output)) ∷ [];
    had_call = true;
  }

  -- consumeStream; the error is the second result
  unfoldable pub consume : List Item → Turn W → Option RunError × Turn W
  unfolding dispatch_in
  consume [] t = (none, t)
  consume (token_item s ∷ items) t = consume items (with_text t (token_event s) (text s))
  consume (reasoning_item s ∷ items) t =
      consume items (with_text t (reasoning_event s) (reasoning s))
  consume (call_item c ∷ items) t = consume items (answered c t (dispatch_in env.tools c t.world))
  consume (end_item ∷ items) t = (none, record t { events = t.events ++ end_event ∷ [] })
  consume (error_item reason ∷ items) t = (some (failed reason), t)
  consume (other_item ∷ items) t = consume items t
  consume (broken_item e ∷ items) t = (some e, t)

-- the state of Run; `chats` counts the calls of Chat
pub record RunState (W : Type 0) : Type 0 where
  pub world : W
  pub msgs : List Message
  pub events : List Event
  pub chats : ℕ

pub data Outcome : Type 0 where
  finished : Outcome
  stream_failed : RunError → Outcome
  store_failed : String → Outcome
  step_limit : Outcome

-- maxRetries, where a negative field is 0
abbrev pub max_retries : ℕ → ℕ
max_retries zero = 1
max_retries (suc n) = suc n

module _ {W : Type 0} (env : Env W) (window : ℕ) where
  abbrev pub chat_once : RunState W → Result RunError (List Item) × RunState W
  unfolding truncate to_llm_messages
  chat_once s =
      let msgs = truncate window s.msgs in
      let (r, w) = env.chat (to_llm_messages msgs) s.world in
      (r, record s { world = w; msgs = msgs; chats = suc s.chats })

  -- the loop over the attempts, of which `n` are left after this one
  unfoldable pub chat_retry : ℕ → RunState W → Result RunError (List Item) × RunState W
  unfolding chat_once
  chat_retry zero s = chat_once s
  chat_retry (suc n) s =
      let (r, s') = chat_once s in
      elim r [
        | ok items ↦ (ok items, s')
        | err e ↦ let again = chat_retry n s' in if is_retryable e then again else (err e, s')
      ]

  abbrev pub llm_error : RunError → RunState W → RunState W
  unfolding is_retryable
  llm_error e s = record s {
    events = s.events ++ error_event "llm_error" (message_of e) (is_retryable e) ∷ [];
  }

  abbrev pub stream_error : RunError → RunState W → Outcome × RunState W
  unfolding llm_error
  stream_error (failed msg) s = (stream_failed (failed msg), llm_error (failed msg) s)
  stream_error e s = (stream_failed e, s)

  abbrev pub one_each : List Part → List Message
  one_each [] = []
  one_each (p ∷ ps) = record { role = "tool"; parts = p ∷ [] } ∷ one_each ps

  abbrev pub assistant_message : List Part → List Message
  assistant_message [] = []
  assistant_message (p ∷ ps) = record { role = "assistant"; parts = p ∷ ps } ∷ []

  abbrev pub persist : List Part → List Part → W → Result String (Unit {0}) × W
  persist assistant results w = elim env.insert [
    | none ↦ (ok tt, w)
    | some insert ↦ insert assistant results w
  ]

  -- a step after its stream: whether the loop goes on, or the outcome
  abbrev pub store_turn : Turn W → RunState W → Option Outcome × RunState W
  store_turn t s =
      let s' = record s {
        msgs = s.msgs ++ (assistant_message t.assistant ++ one_each t.results);
        events = t.events;
      } in
      let (r, w) = persist t.assistant t.results t.world in
      elim r [
        | err e ↦ (
          some (store_failed e),
          record s' { world = w; events = t.events ++ error_event "store_error" e true ∷ [] },
        )
        | ok u ↦ (if t.had_call then none else some finished, record s' { world = w })
      ]

  abbrev pub after_stream : Option RunError × Turn W → RunState W → Option Outcome × RunState W
  unfolding stream_error
  after_stream (some e, t) s =
      let (o, s') = stream_error e (record s { world = t.world; events = t.events }) in (some o, s')
  after_stream (none, t) s = store_turn t s

  -- one turn of the outer loop
  unfoldable pub step : ℕ → RunState W → Option Outcome × RunState W
  unfolding chat_retry consume after_stream llm_error
  step retries s =
      let (r, s') = chat_retry retries s in
      elim r [
        | err e ↦ (some (stream_failed e), llm_error e s')
        | ok items ↦ after_stream (consume env items (new_turn s'.world s'.events)) s'
      ]

  -- the outer loop with the steps that are left
  unfoldable pub steps : ℕ → ℕ → RunState W → Outcome × RunState W
  unfolding step
  steps zero retries s = (step_limit, s)
  steps (suc n) retries s =
      let (o, s') = step retries s in
      let rest = steps n retries s' in elim o [ some o ↦ (o, s') | none ↦ rest ]

  -- Run after the transcript is set up
  unfoldable pub run : ℕ → RunState W → Outcome × RunState W
  unfolding steps
  run retries s = steps 32 (max_retries retries) s
