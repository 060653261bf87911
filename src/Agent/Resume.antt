-- ===== src/Agent/Resume.antt =====
-- internal/server/handler_resume.go.
pub mod Effect
use kubernetes_agent.Base.{
  ℕ, String, Bool, true, false, List, [], ◌∷◌, Option, none, some, Result, ok, err, ◌==◌,
  if◌then◌else◌,
}
use kubernetes_agent.Agent.Session.{
  Close, closed, panics, Session, Sessions, confirm_plan, cancel_plan, answer_ask, lookup, set,
}

-- resumeReq
pub record ResumeRequest : Type 0 where
  pub kind : String
  pub plan_id : String
  pub approved : Option Bool
  pub answer : String

-- 204, or writeError with its status, code and message; the flag is `retryable`
pub data Reply : Type 0 where
  no_content : Reply
  failure : ℕ → String → String → Bool → Reply

abbrev pub bad_request : String → Reply
bad_request message = failure 400 "validation_error" message false

abbrev pub resolved : String → Reply
resolved message = failure 409 "already_resolved" message false

-- the deferred recover
abbrev pub reply_of : String → Close → Reply
reply_of message closed = no_content
reply_of message panics = resolved message

-- the case "plan" on the session; the plan's id is required and not used
abbrev pub decide : Bool → Session → Close × Session
decide true s = confirm_plan s
decide false s = cancel_plan s

unfoldable pub resume_plan_case : ResumeRequest → Session → Reply × Session
unfolding confirm_plan cancel_plan
resume_plan_case req s =
    if req.plan_id == "" then (bad_request "plan_id is required", s) else elim req.approved [
      | none ↦ (bad_request "approved is required", s)
      | some approved ↦ let (c, s') = decide approved s in (reply_of "plan already resolved" c, s')
    ]

unfoldable pub resume_ask_case : ResumeRequest → Session → Reply × Session
unfolding answer_ask
resume_ask_case req s =
    if req.answer == ""
    then (bad_request "answer is required", s)
    else (let (c, s') = answer_ask req.answer s in (reply_of "ask_user already resolved" c, s'))

unfoldable pub resume_session : ResumeRequest → Session → Reply × Session
unfolding resume_plan_case resume_ask_case
resume_session req s =
    if req.kind == "plan"
    then resume_plan_case req s
    else if req.kind == "ask_user"
    then resume_ask_case req s
    else (bad_request "kind must be 'plan' or 'ask_user'", s)

-- resumeHandler: a nil manager is `none`, and a body that encoding/json refuses its error
unfoldable pub resume_handler :
    String → Result String ResumeRequest → Option Sessions → Reply × Option Sessions
unfolding resume_session lookup set
resume_handler id body none = (failure 500 "internal" "session manager not configured" true, none)
resume_handler id (err e) (some m) = (failure 400 "invalid_json" e false, some m)
resume_handler id (ok req) (some m) = elim (lookup id m) [
  | none ↦ (failure 404 "not_found" "no active session" false, some m)
  | some s ↦ let (reply, s') = resume_session req s in (reply, some (set id s' m))
]
