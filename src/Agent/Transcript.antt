-- ===== src/Agent/Transcript.antt =====
-- The transcript of internal/agent/agent.go: truncate, estimateChars and toLLMMessages, with the
-- content parts of internal/llm/client.go. An `int64` is a natural number, since no length is negative.
pub mod Truncation
use kubernetes_agent.Base.{
  ℕ, zero, suc, ◌+◌, ◌-◌, ◌*◌, ◌/◌, String, Bool, true, false, not, ◌||◌, List, [], ◌∷◌, ◌++◌, any,
  length, leb, ltb, ◌==◌, if◌then◌else◌,
}
use kubernetes_agent.Text.{codes, byte_len}

-- ContentPart, one constructor for each `Type`; a nil Input is the empty text
pub data Part : Type 0 where
  text : String → Part
  reasoning : String → Part
  tool_call : String → String → String → Part
  tool_result : String → String → String → Bool → Part

-- transcriptMessage, and Message of internal/llm/client.go
pub record Message : Type 0 where
  pub role : String
  pub parts : List Part

abbrev pub part_chars : Part → ℕ
unfolding byte_len
part_chars (text s) = byte_len (codes s)
part_chars (reasoning s) = byte_len (codes s)
part_chars (tool_call id name input) = byte_len (codes input)
part_chars (tool_result id name output is_error) = byte_len (codes output)

abbrev pub parts_chars : List Part → ℕ
parts_chars [] = 0
parts_chars (p ∷ ps) = part_chars p + parts_chars ps

-- estimateChars
unfoldable pub estimate_chars : List Message → ℕ
unfolding part_chars
estimate_chars [] = 0
estimate_chars (m ∷ ms) = parts_chars m.parts + estimate_chars ms

-- the loop that drops: `middle` are the messages between the first and the last, and `chars` the
-- running count
unfoldable pub drop_oldest : ℕ → ℕ → List Message → List Message
unfolding estimate_chars
drop_oldest limit chars [] = []
drop_oldest limit chars (m ∷ ms) =
    let left = chars - estimate_chars (m ∷ []) in
    let rest = drop_oldest limit left ms in if leb (left / 4) limit then ms else rest

-- `out` of a first message and the rest, which is not empty: the last message stays
abbrev pub middle_of : Message → List Message → List Message
middle_of m [] = []
middle_of m (n ∷ ms) = m ∷ middle_of n ms

abbrev pub last_of : Message → List Message → Message
last_of m [] = m
last_of m (n ∷ ms) = last_of n ms

-- `int64(float64(window) * 0.8)`, with the default of 128000; exact for windows that fit a model
abbrev pub limit_of : ℕ → ℕ
limit_of zero = 102400
limit_of (suc n) = suc n * 4 / 5

abbrev pub over_limit : ℕ → List Message → List Message
unfolding estimate_chars drop_oldest
over_limit limit [] = []
over_limit limit (m ∷ []) = m ∷ []
over_limit limit (m ∷ n ∷ []) = m ∷ n ∷ []
over_limit limit (m ∷ n ∷ o ∷ ms) =
    m
    ∷ (drop_oldest limit (estimate_chars (m ∷ n ∷ o ∷ ms)) (middle_of n (o ∷ ms))
        ++ last_of n (o ∷ ms) ∷ [])

-- truncate; a window that is not positive is 0
unfoldable pub truncate : ℕ → List Message → List Message
unfolding over_limit
truncate window msgs =
    if leb (estimate_chars msgs / 4) (limit_of window)
    then msgs
    else over_limit (limit_of window) msgs

abbrev has_content : Part → Bool
has_content (text s) = not (s == "")
has_content (reasoning s) = not (s == "")
has_content (tool_call id name input) = not (input == "")
has_content (tool_result id name output is_error) = not (output == "")

-- toLLMMessages
unfoldable pub to_llm_messages : List Message → List Message
to_llm_messages [] = []
to_llm_messages (m ∷ ms) =
    let rest = to_llm_messages ms in if any has_content m.parts then m ∷ rest else rest
