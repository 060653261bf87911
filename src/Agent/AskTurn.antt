-- ===== src/Agent/AskTurn.antt =====
-- The k8s_ask_user handler of internal/agent/tools.go, with internal/tools/k8s/ask_user.go. `hex` is
-- fmt's `%x`.
pub mod Answer
use kubernetes_agent.Base.{
  ℕ, ◌+◌, ◌*◌, ◌%◌, ◌^◌, String, Bool, List, [], ◌∷◌, Option, none, some, Result, ok, err, map,
  if◌then◌else◌,
}
use kubernetes_agent.Text.{codes}
use kubernetes_agent.Agent.Session.{Session, Wake, released, interrupted, wait_ask}

pub record AskInput : Type 0 where
  pub question : String
  pub options : List String
  pub multi_select : Bool

-- what the handler returns: an answer of the session, or AskUser's output where it has none
pub data AskOutput : Type 0 where
  answered : String → String → AskOutput
  asked : String → AskOutput

pub data AskError : Type 0 where
  invalid_input : String → AskError
  ask_interrupted : AskError

abbrev pub hash_from : ℕ → List ℕ → ℕ
hash_from h [] = h
hash_from h (c ∷ cs) = hash_from ((h * 31 + c % 2 ^ 32) % 2 ^ 32) cs

-- hashString, and hashQ of ask_user.go
unfoldable pub hash_string : String → ℕ
hash_string s = hash_from 0 (codes s)

abbrev pub prepend_q : String → String
prepend_q s = String.◌∷◌ "q" (String.◌∷◌ "_" s)

-- AskUser
unfoldable pub ask_user : (ℕ → String) → AskInput → String
unfolding hash_string
ask_user hex input = prepend_q (hex (hash_string input.question))

-- what the handler has emitted, and the ways in which it can return: none while it blocks
pub record AskRun : Type 0 where
  pub emitted : List AskInput
  pub returns : List (Result AskError AskOutput)

module _ (hex : ℕ → String) where
  unfoldable pub after_wait : AskInput → Session → Wake → Result AskError AskOutput
  unfolding hash_string
  after_wait input s released = ok (answered (hex (hash_string input.question)) s.ask_answer)
  after_wait input s interrupted = err ask_interrupted

  unfoldable pub wait_for : AskInput → Option Session → Bool → List (Result AskError AskOutput)
  unfolding ask_user wait_ask after_wait
  wait_for input none done = ok (asked (ask_user hex input)) ∷ []
  wait_for input (some s) done = map (after_wait input s) (wait_ask s done)

  -- the handler; `emits` says whether an emitter is set, and `done` whether the context has ended
  unfoldable pub ask_user_tool : Bool → Result String AskInput → Option Session → Bool → AskRun
  ask_user_tool emits (err e) s done = record { emitted = []; returns = err (invalid_input e) ∷ [] }
  ask_user_tool emits (ok input) s done = record {
    emitted = if emits then input ∷ [] else [];
    returns = wait_for input s done;
  }
