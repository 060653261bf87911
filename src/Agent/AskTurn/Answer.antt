-- ===== src/Agent/AskTurn/Answer.antt =====
-- How long an answer lasts.
use kubernetes_agent.Base.{
  ℕ, ◌≡◌, refl, ◌∙◌, String, Bool, false, List, [], ◌∷◌, Option, none, some, Result, ok,
}
use kubernetes_agent.Agent.Session.{
  open_channel, closed_channel, Session, record_plan, close_plan, reset_plan, answer_ask, wait_ask,
}
use kubernetes_agent.Agent.AskTurn.{
  AskInput, AskOutput, AskError, answered, hash_string, after_wait, wait_for, ask_user_tool,
}

-- the steps of a session: an answer, or a step of its plans
pub data SessionStep : Type 0 where
  answer : String → SessionStep
  decide_plan : String → SessionStep
  release : SessionStep
  reset : SessionStep

unfoldable pub after_step : SessionStep → Session → Session
unfolding answer_ask record_plan close_plan reset_plan
after_step (answer a) s = (answer_ask a s).1
after_step (decide_plan d) s = record_plan d s
after_step release s = (close_plan s).1
after_step reset s = reset_plan s

unfoldable pub after_steps : List SessionStep → Session → Session
unfolding after_step
after_steps [] s = s
after_steps (step ∷ steps) s = after_steps steps (after_step step s)

-- the last answer of the steps, or the one before them
unfoldable pub newest : Option String → List SessionStep → Option String
newest last [] = last
newest last (answer a ∷ steps) = newest (some a) steps
newest last (decide_plan d ∷ steps) = newest last steps
newest last (release ∷ steps) = newest last steps
newest last (reset ∷ steps) = newest last steps

-- the session keeps this answer, and its channel was closed if there is one
data Keeps : Option String → Session → Type 0 where
  unanswered : {s : Session} → s.resume_ask ≡ open_channel → Keeps none s
  kept :
      {a : String} {s : Session}
      → s.resume_ask ≡ closed_channel
      → s.ask_answer ≡ a
      → Keeps (some a) s

answer-Keeps :
    (last : Option String) (a : String) (s : Session)
    → Keeps last s
    → Keeps (some a) (after_step (answer a) s)
unfolding after_step answer_ask
answer-Keeps none a s (unanswered h) = kept (rw h refl) refl
answer-Keeps (some b) a s (kept h e) = kept (rw h refl) refl

unrelated-Keeps :
    (last : Option String) (s t : Session)
    → t.resume_ask ≡ s.resume_ask
    → t.ask_answer ≡ s.ask_answer
    → Keeps last s
    → Keeps last t
unrelated-Keeps none s t c a (unanswered h) = unanswered (c ∙ h)
unrelated-Keeps (some b) s t c a (kept h e) = kept (c ∙ h) (a ∙ e)

after_steps-Keeps :
    (last : Option String) (steps : List SessionStep) (s : Session)
    → Keeps last s
    → Keeps (newest last steps) (after_steps steps s)
unfolding newest after_steps after_step record_plan close_plan reset_plan
after_steps-Keeps last [] s k = k
after_steps-Keeps last (answer a ∷ steps) s k =
    after_steps-Keeps (some a) steps _ (answer-Keeps last a s k)
after_steps-Keeps last (decide_plan d ∷ steps) s k =
    after_steps-Keeps last steps _ (unrelated-Keeps last s _ refl refl k)
after_steps-Keeps last (release ∷ steps) s k =
    after_steps-Keeps last steps _ (unrelated-Keeps last s _ refl refl k)
after_steps-Keeps last (reset ∷ steps) s k =
    after_steps-Keeps last steps _ (unrelated-Keeps last s _ refl refl k)

module _ (hex : ℕ → String) where
  -- what a question can return by this answer
  abbrev pub returned_by : AskInput → Option String → List (Result AskError AskOutput)
  returned_by input none = []
  returned_by input (some a) = ok (answered (hex (hash_string input.question)) a) ∷ []

  question-Keeps :
      (emits : Bool) (input : AskInput) (last : Option String) (s : Session)
      → Keeps last s
      → (ask_user_tool hex emits (ok input) (some s) false).returns ≡ returned_by input last
  unfolding ask_user_tool wait_ask wait_for after_wait
  question-Keeps emits input none s (unanswered h) = rw h refl
  question-Keeps emits input (some a) s (kept h e) = rw (h, e) refl

  -- After any answers and any steps of plans in a session that was not answered before, a question
  -- whose context lasts blocks if no answer was among them; else it returns at once, and with the
  -- newest of the answers, whichever question they were given to.
  pub ask_user_tool-answer_ask :
      (emits : Bool) (input : AskInput) (s : Session) (steps : List SessionStep)
      → s.resume_ask ≡ open_channel
      → (ask_user_tool hex emits (ok input) (some (after_steps steps s)) false).returns
        ≡ returned_by input (newest none steps)
  ask_user_tool-answer_ask emits input s steps h =
      question-Keeps emits input (newest none steps) (after_steps steps s)
        (after_steps-Keeps none steps s (unanswered h))
