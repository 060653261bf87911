-- ===== src/Agent/Tests.antt =====
-- The theorems on sessions and tools at concrete turns.
use kubernetes_agent.Base.{
  ℕ, ◌≡◌, ◌≢◌, refl, String, true, false, List, [], ◌∷◌, Option, none, some, ok, err, arith, ◌==◌,
  eq_iff, if◌then◌else◌,
}
use mathlib.Core.List.{Memᴰ}
use kubernetes_agent.Policy.Rules.{default_rules}
use kubernetes_agent.Store.Plans.{Plan}
use kubernetes_agent.K8s.Op.{Operation}
use kubernetes_agent.Text.{equal_fold}
use kubernetes_agent.Policy.Engine.{matches, evaluate}
use kubernetes_agent.K8s.Api.{◌>>=◌, wrap, connect_to, look, send, pure}
use kubernetes_agent.K8s.Plan.{PlanOutput, dry_run, plan_write}
use kubernetes_agent.K8s.Tests.{empty_cluster, printer, no_orbit, create_pod, blank}
use kubernetes_agent.K8s.Execute.Reach.{Adds}
use kubernetes_agent.Agent.Session.{
  Session, Sessions, new_session, open_channel, closed_channel, lookup, close_result, record_plan,
  close_plan, reset_plan, wait_plan, plan_decision,
}
use kubernetes_agent.Agent.PlanTurn.{
  State, announced, waiting, woken, returned, at_start, confirmed, Steps, none_yet, and_then,
  announce, reset, write, close, wake, start,
}
use kubernetes_agent.Agent.PlanTurn.Decision.{IsAnswer, Steps-IsAnswer}
use kubernetes_agent.Agent.PlanTurn.Progress.{request_answers, cancel_answers_confirmed}
use kubernetes_agent.Agent.PlanTurn.Early.{IsUndecided, after_early, early_request_lost}
use kubernetes_agent.Agent.Resume.{ResumeRequest, reply_of, resume_handler}
use kubernetes_agent.Agent.Resume.Effect.{
  verdict_of, resume_handler_refused, resume_handler_decides,
}
use kubernetes_agent.Agent.AskTurn.{AskInput, answered, hash_string, ask_user_tool}
use kubernetes_agent.Agent.AskTurn.Answer.{
  SessionStep, answer, decide_plan, release, after_steps, newest, ask_user_tool-answer_ask,
}
use kubernetes_agent.Agent.Tools.{
  Codec, ToolState, bind_ops, plan_write_tool, load_ops_for_plan, execute_plan_tool,
}
use kubernetes_agent.Agent.Tools.Bound.{IsIn, loaded, execute_plan_tool-IsIn}
use kubernetes_agent.Agent.Tools.Stored.{
  no_rows, row, Agree, execute_plan_tool-SameButStatus, plan_write_tool-load_ops_for_plan,
}

abbrev fresh_session : Session
fresh_session = new_session "s"

abbrev bound_session : Session
bound_session = record fresh_session { cluster_id = "c" }

abbrev announced_state : State
announced_state = record (start fresh_session) { phase = announced }

abbrev waiting_state : State
waiting_state = record (start fresh_session) { phase = waiting }

abbrev woken_state : State
woken_state = record {
  session = record fresh_session { plan_result = "confirmed"; resume_plan = closed_channel };
  phase = woken;
  in_flight = 0;
  written = "confirmed" ∷ [];
  since_reset = "confirmed" ∷ [];
  carried = 0;
}

to_waiting : Steps (start fresh_session) waiting_state
unfolding reset_plan
to_waiting = and_then (and_then none_yet (announce _ at_start)) (reset _ refl)

to_woken : Steps (start fresh_session) woken_state
unfolding reset_plan record_plan close_plan wait_plan
to_woken =
    and_then (and_then (and_then to_waiting (write _ "confirmed" confirmed)) (close _ 0 refl))
      (wake _ false refl (Memᴰ.head refl))

Steps-IsAnswer_example : IsAnswer woken_state (plan_decision (some woken_state.session))
Steps-IsAnswer_example = Steps-IsAnswer fresh_session woken_state to_woken refl

request_answers_example :
    (u : State) × Steps waiting_state u
    × (u.phase ≡ returned "confirmed")
    × (u.written ≡ "confirmed" ∷ [])
request_answers_example =
    request_answers fresh_session waiting_state "confirmed" to_waiting refl confirmed

early_request_lost_example :
    Steps announced_state (after_early "confirmed" announced_state)
    × IsUndecided (after_early "confirmed" announced_state).phase
unfolding after_early
early_request_lost_example =
    early_request_lost announced_state "confirmed" (after_early "confirmed" announced_state) refl
      refl confirmed none_yet refl

cancel_answers_confirmed_example :
    (t : State) × Steps announced_state t
    × (t.phase ≡ returned "confirmed")
    × (t.written ≡ "cancelled" ∷ [])
cancel_answers_confirmed_example = cancel_answers_confirmed announced_state refl

abbrev one_session : Sessions
one_session = ("s", fresh_session) ∷ []

abbrev no_decision : ResumeRequest
no_decision = record { kind = "plan"; plan_id = "p"; approved = none; answer = "" }

abbrev confirm_request : ResumeRequest
confirm_request = record { kind = "plan"; plan_id = "p"; approved = some true; answer = "" }

resume_handler_refused_example :
    (resume_handler "s" (ok no_decision) (some one_session)).1 ≡ some one_session
unfolding resume_handler
resume_handler_refused_example = resume_handler_refused "s" (ok no_decision) (some one_session) refl

found : lookup "s" one_session ≡ some fresh_session
unfolding lookup
found = refl

p-ne-empty : confirm_request.plan_id ≢ ""
p-ne-empty h = ground (arith, eq_iff "p" "", h)

resume_handler_decides_example :
    let (reply, after) = resume_handler "s" (ok confirm_request) (some one_session) in
    (reply ≡ reply_of "plan already resolved" (close_result open_channel))
    × ((m : Sessions) × (s : Session) × (after ≡ some m)
        × (lookup "s" m ≡ some s)
        × (s.plan_result ≡ verdict_of true)
        × (s.resume_plan ≢ open_channel))
resume_handler_decides_example =
    resume_handler_decides "s" confirm_request one_session fresh_session true found refl p-ne-empty
      refl

abbrev question : String → AskInput
question text = record { question = text; options = []; multi_select = false }

abbrev show_hash : ℕ → String
show_hash n = "0"

abbrev two_answers : List SessionStep
two_answers =
    answer "prod" ∷ SessionStep.reset ∷ decide_plan "confirmed" ∷ answer "3" ∷ release ∷ []

ask_user_tool-answer_ask_example :
    (ask_user_tool show_hash true
      (ok (question "how many?"))
      (some (after_steps two_answers fresh_session))
      false).returns
    ≡ ok (answered (show_hash (hash_string "how many?")) "3") ∷ []
unfolding newest
ask_user_tool-answer_ask_example =
    ask_user_tool-answer_ask show_hash true (question "how many?") fresh_session two_answers refl

abbrev planned_ops : List Operation
planned_ops = create_pod "web" ∷ []

-- a codec for the one list of operations
abbrev codec : Codec
codec = record {
  encode_ops = λ ops. "[pod]";
  decode_ops = λ t. if t == "[pod]" then ok planned_ops else err "no such text";
  encode_diffs = λ diffs denied. "{}";
}

abbrev no_plans : ToolState
no_plans = record { plans = some []; world = blank }

abbrev stored : String → Option ℕ → Plan
stored status at = record {
  id = "p";
  session_id = "s";
  ops_json = "[pod]";
  diffs_json = "{}";
  risk = "high";
  status = status;
  created_at = 5;
  executed_at = at;
}

abbrev one_plan : ToolState
one_plan = record { plans = some (stored "pending" none ∷ []); world = blank }

execute_plan_tool-IsIn_example :
    Adds
      (IsIn "c" (loaded codec 7 empty_cluster no_orbit default_rules (ok "p") one_plan))
      []
      (execute_plan_tool codec 7 empty_cluster no_orbit default_rules bound_session
        (ok "p")
        one_plan).1.world.sent
execute_plan_tool-IsIn_example =
    execute_plan_tool-IsIn codec 7 empty_cluster no_orbit default_rules bound_session (ok "p")
      one_plan

execute_plan_tool-SameButStatus_example :
    Agree codec 7 empty_cluster no_orbit default_rules
      (execute_plan_tool codec 7 empty_cluster no_orbit default_rules bound_session
        (ok "p")
        (record no_plans { plans = some (stored "pending" none ∷ []) }))
      (execute_plan_tool codec 7 empty_cluster no_orbit default_rules bound_session
        (ok "p")
        (record no_plans { plans = some (stored "cancelled" (some 6) ∷ []) }))
execute_plan_tool-SameButStatus_example =
    execute_plan_tool-SameButStatus codec 7 empty_cluster no_orbit default_rules bound_session
      (ok "p") no_plans _ _ (row (stored "pending" none) "cancelled" (some 6) no_rows)

-- what k8s_plan_write returns for `planned_ops`
abbrev a_plan : PlanOutput
unfolding plan_write_tool plan_write ◌>>=◌ evaluate matches equal_fold wrap connect_to dry_run look
    send pure
a_plan =
    elim (plan_write_tool codec 7 empty_cluster printer no_orbit default_rules "p" ("s" ∷ [])
      bound_session (ok planned_ops) no_plans).0 [
        | ok out ↦ out
        | err e ↦ record { plan_id = ""; summary = ""; diffs = []; denied = [] }
      ]

planned :
    (plan_write_tool codec 7 empty_cluster printer no_orbit default_rules "p"
      ("s" ∷ [])
      bound_session
      (ok planned_ops)
      no_plans).0
    ≡ ok a_plan
unfolding plan_write_tool plan_write ◌>>=◌ evaluate matches equal_fold wrap connect_to dry_run look
    send pure
planned = refl

reads_back :
    codec.decode_ops (codec.encode_ops (bind_ops "c" planned_ops)) ≡ ok (bind_ops "c" planned_ops)
unfolding bind_ops
reads_back = refl

plan_write_tool-load_ops_for_plan_example :
    load_ops_for_plan codec 7 a_plan.plan_id
      (plan_write_tool codec 7 empty_cluster printer no_orbit default_rules "p"
        ("s" ∷ [])
        bound_session
        (ok planned_ops)
        no_plans).1.plans
    ≡ ok (bind_ops "c" planned_ops)
plan_write_tool-load_ops_for_plan_example =
    plan_write_tool-load_ops_for_plan codec 7 empty_cluster printer no_orbit default_rules "p"
      ("s" ∷ []) bound_session planned_ops no_plans [] a_plan refl refl refl reads_back planned
