-- ===== src/Agent/History/Lossy.antt =====
-- What a reload of the stored messages changes.
use mathlib.Core.List
use kubernetes_agent.Base.{
  ◌≡◌, refl, sym, ap, ◌∙◌, String, Bool, true, false, Bool-cases, inl, inr, List, [], ◌∷◌, Option,
  none, some, All, All-append, append_assoc, ◌==◌, if◌then◌else◌,
}
use kubernetes_agent.Json.{Json, null, bool, num, str, arr, obj, Items, nil, cons}
use kubernetes_agent.Store.Messages
use kubernetes_agent.Agent.Transcript.{Part, text, reasoning, tool_call, Message}
use kubernetes_agent.Agent.History.{
  text_of, if_text, stored_call, add_part, or_none, objects, decoded_calls, decoded_result,
  content_to_parts, one_message, history, first_transcript,
}

-- a tool call without its input
abbrev pub HasNoInput : Part → Type 0
HasNoInput (tool_call id name input) = input ≡ ""
HasNoInput _ = Unit {0}

if_text-HasNoInput : (s : String) (p : Part) → HasNoInput p → All HasNoInput (if_text s p)
if_text-HasNoInput s p h = elim (Bool-cases (s == "")) [ inl e ↦ rw e tt | inr e ↦ rw e (h, tt) ]

abbrev AllDecoded : Option (List Part) → Type 0
AllDecoded none = Unit {0}
AllDecoded (some ps) = All HasNoInput ps

add_part-AllDecoded :
    (p : Part) (o : Option (List Part)) → HasNoInput p → AllDecoded o → AllDecoded (add_part p o)
add_part-AllDecoded p none h k = tt
add_part-AllDecoded p (some ps) h k = (h, k)

objects-AllDecoded : (items : Items) → AllDecoded (objects items)
objects-AllDecoded nil = tt
objects-AllDecoded (cons (obj c) items) =
    add_part-AllDecoded (stored_call c) (objects items) refl (objects-AllDecoded items)
objects-AllDecoded (cons null items) =
    add_part-AllDecoded (tool_call "" "" "") (objects items) refl (objects-AllDecoded items)
objects-AllDecoded (cons (bool b) items) = tt
objects-AllDecoded (cons (num t) items) = tt
objects-AllDecoded (cons (str s) items) = tt
objects-AllDecoded (cons (arr xs) items) = tt

or_none-HasNoInput : (o : Option (List Part)) → AllDecoded o → All HasNoInput (or_none o)
or_none-HasNoInput none h = tt
or_none-HasNoInput (some ps) h = h

decoded_calls-HasNoInput : (o : Option Json) → All HasNoInput (decoded_calls o)
decoded_calls-HasNoInput none = tt
decoded_calls-HasNoInput (some (arr items)) =
    or_none-HasNoInput (objects items) (objects-AllDecoded items)
decoded_calls-HasNoInput (some null) = tt
decoded_calls-HasNoInput (some (bool b)) = tt
decoded_calls-HasNoInput (some (num t)) = tt
decoded_calls-HasNoInput (some (str s)) = tt
decoded_calls-HasNoInput (some (obj fs)) = tt

decoded_result-HasNoInput : (o : Option Json) → All HasNoInput (decoded_result o)
decoded_result-HasNoInput none = tt
decoded_result-HasNoInput (some (arr items)) = tt
decoded_result-HasNoInput (some null) = (tt, tt)
decoded_result-HasNoInput (some (bool b)) = tt
decoded_result-HasNoInput (some (num t)) = tt
decoded_result-HasNoInput (some (str s)) = tt
decoded_result-HasNoInput (some (obj fs)) = (tt, tt)

All-if :
    {A : Type 0} (P : A → Type 0) (b : Bool) (xs ys : List A)
    → All P xs
    → All P ys
    → All P (if b then xs else ys)
All-if P true xs ys h k = h
All-if P false xs ys h k = k

module _ (parse : String → Option Json) where
  result_part : Messages.Message → List Part
  result_part m =
      if m.role == "tool"
      then (if text_of m.content == "" then [] else decoded_result (parse (text_of m.content)))
      else []

  result_part-HasNoInput : (m : Messages.Message) → All HasNoInput (result_part m)
  unfolding result_part
  result_part-HasNoInput m =
      let inner : List Part =
        if text_of m.content == "" then [] else decoded_result (parse (text_of m.content)) in
      All-if HasNoInput (m.role == "tool") inner []
        (All-if HasNoInput (text_of m.content == "") [] (decoded_result (parse (text_of m.content)))
          tt (decoded_result-HasNoInput (parse (text_of m.content))))
        tt

  -- A tool call that a transcript takes from the store has lost its input, whatever was stored.
  pub content_to_parts-HasNoInput :
      (m : Messages.Message) → All HasNoInput (content_to_parts parse m)
  unfolding content_to_parts result_part
  content_to_parts-HasNoInput m =
      All-append HasNoInput (if_text (text_of m.content) (text (text_of m.content))) _
        (if_text-HasNoInput _ _ tt)
        (All-append HasNoInput (if_text (text_of m.reasoning) (reasoning (text_of m.reasoning))) _
          (if_text-HasNoInput _ _ tt)
          (All-append HasNoInput
            (if text_of m.tool_calls == ""
              then []
              else decoded_calls (parse (text_of m.tool_calls)))
            _
            (All-if HasNoInput _ [] _ tt (decoded_calls-HasNoInput (parse (text_of m.tool_calls))))
            (result_part-HasNoInput m)))

  -- what the chat handler stores for a user's message
  pub record IsUserRow (user : String) (m : Messages.Message) : Type 0 where
    pub role : m.role ≡ "user"
    pub content : m.content ≡ some user
    pub reasoning : m.reasoning ≡ none
    pub tool_calls : m.tool_calls ≡ none

  abbrev pub user_message : String → Message
  user_message user = record { role = "user"; parts = text user ∷ [] }

  user_row :
      (user : String) (m : Messages.Message)
      → (user == "") ≡ false
      → IsUserRow user m
      → one_message parse m.role (content_to_parts parse m) ≡ user_message user ∷ []
  unfolding content_to_parts
  user_row user m h r = rw (r.role, r.content, r.reasoning, r.tool_calls, h) refl

  history-append :
      (rows : List Messages.Message) (m : Messages.Message)
      → history parse (List.◌++◌ rows (m ∷ []))
        ≡ List.◌++◌ (history parse rows) (one_message parse m.role (content_to_parts parse m))
  unfolding history
  history-append [] m = List.append-nil _
  history-append (r ∷ rows) m =
      ap (List.◌++◌ (one_message parse r.role (content_to_parts parse r))) (history-append rows m)
      ∙ sym (append_assoc _ (history parse rows) _)

  -- The user's message is in the first transcript twice where its row is already stored, as the chat
  -- handler stores it before the run.
  pub first_transcript-IsUserRow :
      (prompt user : String) (rows : List Messages.Message) (m : Messages.Message)
      → (user == "") ≡ false
      → IsUserRow user m
      → first_transcript parse prompt (List.◌++◌ rows (m ∷ [])) user
        ≡ record { role = "system"; parts = text prompt ∷ [] }
          ∷ List.◌++◌ (history parse rows) (user_message user ∷ user_message user ∷ [])
  unfolding first_transcript
  first_transcript-IsUserRow prompt user rows m h r =
      ap
        (λ l.
          record { role = "system"; parts = text prompt ∷ [] }
          ∷ List.◌++◌ l (user_message user ∷ []))
        (history-append rows m ∙ ap (List.◌++◌ (history parse rows)) (user_row user m h r))
      ∙ ap (λ l. record { role = "system"; parts = text prompt ∷ [] } ∷ l)
          (append_assoc (history parse rows) (user_message user ∷ []) (user_message user ∷ []))
