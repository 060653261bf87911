-- ===== src/Agent/Tools.antt =====
-- The handlers k8s_plan_write, up to its wait, and k8s_execute_plan of internal/agent/tools.go.
pub mod Bound
pub mod Stored
pub mod Reads
pub mod Others
use kubernetes_agent.Base.{
  ℕ, String, Bool, true, false, List, [], ◌∷◌, Option, none, some, Result, ok, err, ◌==◌,
  if◌then◌else◌,
}
use kubernetes_agent.Policy.Rules.{Rule}
use kubernetes_agent.Store.Failure.{DbError}
use kubernetes_agent.Store.Plans.{Plan, pending, create_plan, get_plan, mark_executed}
use kubernetes_agent.K8s.Op.{Operation}
use kubernetes_agent.K8s.Rebind.{bind_op}
use kubernetes_agent.K8s.Api.{Api, Trace}
use kubernetes_agent.K8s.Summary.{Diff, DeniedOp, Printer}
use kubernetes_agent.K8s.Plan.{PlanError, PlanOutput, plan_write}
use kubernetes_agent.K8s.Execute.{Done, ExecuteError, World, execute_plan}
use kubernetes_agent.Agent.Session.{Session}

-- encoding/json on the values that the plans table keeps
pub record Codec : Type 0 where
  pub encode_ops : List Operation → String
  pub decode_ops : String → Result String (List Operation)
  pub encode_diffs : List Diff → List DeniedOp → String

pub data ToolError : Type 0 where
  invalid_input : String → ToolError
  no_cluster : ToolError
  no_store : ToolError
  plan_lookup : DbError → ToolError
  decode_failed : String → ToolError
  planning : PlanError → ToolError
  execution : ExecuteError → ToolError

-- the plans table, where the tools have a store, and what was sent and audited
pub record ToolState : Type 0 where
  pub plans : Option (List Plan)
  pub world : World

-- the loop that binds every operation to the session's cluster, where its way through a map succeeds
unfoldable pub bind_ops : String → List Operation → List Operation
unfolding bind_op
bind_ops bound [] = []
bind_ops bound (op ∷ ops) = bind_op bound op ∷ bind_ops bound ops

-- `risk` of the row that k8s_plan_write stores
abbrev pub first_risk : List Diff → String
first_risk [] = "low"
first_risk (d ∷ ds) = d.risk

module _ (codec : Codec) (now : ℕ) where
  abbrev pub plan_row : Session → List Operation → PlanOutput → Plan
  plan_row s ops out = record {
    id = out.plan_id;
    session_id = s.id;
    ops_json = codec.encode_ops ops;
    diffs_json = codec.encode_diffs out.diffs out.denied;
    risk = first_risk out.diffs;
    status = pending;
    created_at = 0;
    executed_at = none;
  }

  -- an error of CreatePlan is dropped
  unfoldable pub save_plan :
      List String → Session → List Operation → PlanOutput → Option (List Plan) → Option (List Plan)
  unfolding create_plan
  save_plan sessions s ops out none = none
  save_plan sessions s ops out (some rows) =
      elim (create_plan now sessions (plan_row s ops out) rows) [
        | ok rows' ↦ some rows'
        | err e ↦ some rows
      ]

  module _ (api : Api) (printer : Printer) (orbit : ℕ → ℕ) (rules : List Rule) where
    abbrev planned :
        List String
        → Session
        → List Operation
        → ToolState
        → Result PlanError PlanOutput
        → Trace
        → Result ToolError PlanOutput × ToolState
    unfolding save_plan
    planned sessions s ops st (err e) t =
        (err (planning e), record st { world = record (st.world) { sent = t } })
    planned sessions s ops st (ok out) t = (
      ok out,
      record st {
        plans = save_plan sessions s ops out st.plans;
        world = record (st.world) { sent = t };
      },
    )

    -- k8s_plan_write to its events, which carry the output; `sessions` are the ids of the session rows
    unfoldable pub plan_write_tool :
        String
        → List String
        → Session
        → Result String (List Operation)
        → ToolState
        → Result ToolError PlanOutput × ToolState
    unfolding planned bind_ops
    plan_write_tool plan_id sessions s (err e) st = (err (invalid_input e), st)
    plan_write_tool plan_id sessions s (ok ops) st =
        if s.cluster_id == ""
        then (err no_cluster, st)
        else (let bound = bind_ops s.cluster_id ops in
            let (r, t) = plan_write api printer orbit rules plan_id bound st.world.sent in
            planned sessions s bound st r t)

  -- loadOpsForPlan
  unfoldable pub load_ops_for_plan : String → Option (List Plan) → Result ToolError (List Operation)
  unfolding get_plan
  load_ops_for_plan plan_id none = err no_store
  load_ops_for_plan plan_id (some rows) = elim (get_plan plan_id rows) [
    | err e ↦ err (plan_lookup e)
    | ok p ↦ elim (codec.decode_ops p.ops_json) [ ok ops ↦ ok ops | err e ↦ err (decode_failed e) ]
  ]

  -- an error of MarkExecuted is dropped
  unfoldable pub mark_plan : String → Option (List Plan) → Option (List Plan)
  unfolding mark_executed
  mark_plan plan_id none = none
  mark_plan plan_id (some rows) = elim (mark_executed now plan_id rows) [
    | ok rows' ↦ some rows'
    | err e ↦ some rows
  ]

  module _ (api : Api) (orbit : ℕ → ℕ) (rules : List Rule) where
    unfoldable pub run_plan :
        String → String → List Operation → ToolState → Result ToolError (List Done) × ToolState
    unfolding mark_plan bind_ops
    run_plan bound plan_id ops st =
        let (r, w) = execute_plan api orbit rules plan_id (bind_ops bound ops) st.world in
        elim r [
          | err e ↦ (err (execution e), record st { world = w })
          | ok done ↦ (ok done, record { plans = mark_plan plan_id st.plans; world = w })
        ]

    -- k8s_execute_plan; of its input only the plan's id is read
    unfoldable pub execute_plan_tool :
        Session → Result String String → ToolState → Result ToolError (List Done) × ToolState
    unfolding run_plan load_ops_for_plan
    execute_plan_tool s (err e) st = (err (invalid_input e), st)
    execute_plan_tool s (ok plan_id) st =
        if s.cluster_id == ""
        then (err no_cluster, st)
        else elim (load_ops_for_plan plan_id st.plans) [
          | err e ↦ (err e, st)
          | ok ops ↦ run_plan s.cluster_id plan_id ops st
        ]
