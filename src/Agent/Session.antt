-- ===== src/Agent/Session.antt =====
-- internal/agent/session.go. One session is the cell that a turn and the HTTP layer share.
pub mod Registry
use kubernetes_agent.Base.{
  String, Bool, true, false, List, [], ◌∷◌, ◌++◌, Option, none, some, Result, ok, err, ◌==◌,
  if◌then◌else◌,
}

-- a `chan struct{}` on which nothing is sent: the zero value, one that is open, one that was closed
pub data Channel : Type 0 where
  nil_channel open_channel closed_channel : Channel

pub record Session : Type 0 where
  pub id : String
  pub cluster_id : String
  pub resume_plan : Channel
  pub resume_ask : Channel
  pub ask_answer : String
  pub plan_result : String
  pub last_event_id : String

-- NewSession
abbrev pub new_session : String → Session
new_session id = record {
  id = id;
  cluster_id = "";
  resume_plan = open_channel;
  resume_ask = open_channel;
  ask_answer = "";
  plan_result = "";
  last_event_id = "";
}

-- `close`: of a nil or a closed channel it panics
pub data Close : Type 0 where
  closed : Close
  panics : Close

abbrev pub close_result : Channel → Close
close_result open_channel = closed
close_result _ = panics

abbrev pub close_channel : Channel → Channel
close_channel nil_channel = nil_channel
close_channel _ = closed_channel

-- the two halves of ConfirmPlan and CancelPlan: the write under the mutex, then the close without it
unfoldable pub record_plan : String → Session → Session
record_plan decision s = record s { plan_result = decision }

unfoldable pub close_plan : Session → Close × Session
close_plan s = (close_result s.resume_plan, record s { resume_plan = close_channel s.resume_plan })

-- ConfirmPlan
unfoldable pub confirm_plan : Session → Close × Session
unfolding record_plan close_plan
confirm_plan s = close_plan (record_plan "confirmed" s)

-- CancelPlan
unfoldable pub cancel_plan : Session → Close × Session
unfolding record_plan close_plan
cancel_plan s = close_plan (record_plan "cancelled" s)

-- ResetPlan
unfoldable pub reset_plan : Session → Session
reset_plan s = record s { resume_plan = open_channel; plan_result = "" }

-- AnswerAsk
unfoldable pub answer_ask : String → Session → Close × Session
answer_ask answer s = (
  close_result s.resume_ask,
  record s { ask_answer = answer; resume_ask = close_channel s.resume_ask },
)

-- the ways in which a select on a channel and on the context's end can return: none while it blocks
pub data Wake : Type 0 where
  released : Wake
  interrupted : Wake

abbrev pub on_channel : Channel → List Wake
on_channel closed_channel = released ∷ []
on_channel _ = []

abbrev pub select_wait : Channel → Bool → List Wake
select_wait c done = on_channel c ++ (if done then interrupted ∷ [] else [])

-- WaitPlan; `done` says whether the context has ended
unfoldable pub wait_plan : Session → Bool → List Wake
wait_plan s done = select_wait s.resume_plan done

-- WaitAsk
unfoldable pub wait_ask : Session → Bool → List Wake
wait_ask s done = select_wait s.resume_ask done

-- planDecision of tools.go; a nil session is `none`
unfoldable pub plan_decision : Option Session → String
plan_decision none = "confirmed"
plan_decision (some s) = if s.plan_result == "" then "confirmed" else s.plan_result

-- the map of the SessionManager; a binding further out hides one of its key
abbrev pub Sessions : Type 0
Sessions = List (String × Session)

unfoldable pub find : String → Sessions → Option Session
find id [] = none
find id ((k, s) ∷ rest) = if k == id then some s else find id rest

-- SessionManager.Set
unfoldable pub set : String → Session → Sessions → Sessions
set id s [] = (id, s) ∷ []
set id s ((k, old) ∷ rest) =
    let more = set id s rest in if k == id then (k, s) ∷ rest else (k, old) ∷ more

-- SessionManager.Get: the session, and the map with it
unfoldable pub get_session : String → Sessions → Session × Sessions
unfolding find set
get_session id m = elim (find id m) [
  | some s ↦ (s, m)
  | none ↦ (new_session id, set id (new_session id) m)
]

-- SessionManager.Lookup; the error is ErrSessionNotFound
unfoldable pub lookup : String → Sessions → Option Session
unfolding find
lookup id m = find id m

-- SessionManager.Drop
unfoldable pub drop : String → Sessions → Sessions
drop id [] = []
drop id ((k, s) ∷ rest) = let more = drop id rest in if k == id then more else (k, s) ∷ more
