-- ===== src/K8s/Execute.antt =====
-- internal/tools/k8s/execute_plan.go.
pub mod Reach
pub mod Outcome
use kubernetes_agent.Base.{
  ℕ, zero, suc, ◌+◌, String, Bool, true, false, List, [], ◌∷◌, ◌++◌, Option, none, some, Result, ok,
  err, any, length, ◌==◌, if◌then◌else◌,
}
use mathlib.Core.List.{reverse}
use kubernetes_agent.Json.{Json, null, num, obj, Fields, end, field}
use kubernetes_agent.Policy.Rules.{Rule, deny}
use kubernetes_agent.Policy.Engine.{evaluate}
use kubernetes_agent.Text.{decimal}
use kubernetes_agent.K8s.Op.{Replicas, Operation, info}
use kubernetes_agent.K8s.Api.{
  Target, Request, get, create, patch, delete, Api, OpError, needs_manifest, unknown_action,
  no_rollback, Trace, Call, ◌>>=◌, pure, fail, send, connect_to, Existing, absent, present, look,
}
use kubernetes_agent.K8s.Plan.{target}

-- one entry of `results`; the status is always "ok"
pub record Done : Type 0 where
  pub action : String
  pub status : String

-- the two formats of the audit message, with their arguments
pub data AuditMessage : Type 0 where
  failed_at : String → ℕ → OpError → ℕ → AuditMessage
  executed : String → ℕ → AuditMessage

pub record AuditEntry : Type 0 where
  pub action : String
  pub status : String
  pub message : AuditMessage

pub data ExecuteError : Type 0 where
  policy_changed : ExecuteError
  op_failed : ℕ → OpError → ℕ → ExecuteError

-- what an execution leaves behind
pub record World : Type 0 where
  pub sent : Trace
  pub audit : List AuditEntry

abbrev pub replicas_json : Option Replicas → Json
unfolding decimal
replicas_json none = null
replicas_json (some n) = num (decimal n.negative n.magnitude)

-- `{"spec": {"replicas": op.replicas}}`
abbrev pub scale_patch : Operation → Fields
scale_patch op = field "spec" (obj (field "replicas" (replicas_json op.replicas) end)) end

abbrev pub results : List Operation → List Done
results [] = []
results (op ∷ ops) = record { action = op.action; status = "ok" } ∷ results ops

module _ (api : Api) where
  create_or_patch : Operation → Fields → Existing → Call OpError Fields
  create_or_patch op m absent = send api (create (target api op (api.name_of m)) m false)
  create_or_patch op m present = send api (patch (target api op (api.name_of m)) m false)

  apply_manifest : Operation → Option Fields → Call OpError (Unit {0})
  unfolding create_or_patch
  apply_manifest op none = fail needs_manifest
  apply_manifest op (some m) = do
    existing ← look api (target api op (api.name_of m))
    _ ← create_or_patch op m existing
    pure tt

  delete_named : Operation → Call OpError (Unit {0})
  delete_named op = do _ ← send api (delete (target api op op.name)); pure tt

  scale_named : Operation → Call OpError (Unit {0})
  scale_named op = do _ ← send api (patch (target api op op.name) (scale_patch op) false); pure tt

  apply_connected : Operation → Call OpError (Unit {0})
  unfolding apply_manifest delete_named scale_named
  apply_connected op =
      if op.action == "apply"
      then apply_manifest op op.manifest
      else if op.action == "delete"
      then delete_named op
      else if op.action == "scale"
      then scale_named op
      else fail (unknown_action op.action)

  -- applyOne
  unfoldable pub apply_one : Operation → Call OpError (Unit {0})
  unfolding apply_connected
  apply_one op = do _ ← connect_to api op.cluster_id; apply_connected op

  -- rollbackOne
  unfoldable pub rollback_one : Operation → Result OpError (Unit {0})
  rollback_one op = err (no_rollback op.action)

  -- the loop over the executed operations, newest first
  unfoldable pub roll_back : List Operation → ℕ → ℕ
  unfolding rollback_one
  roll_back [] n = n
  roll_back (op ∷ ops) n = roll_back ops (elim (rollback_one op) [ ok _ ↦ n + 1 | err _ ↦ n ])

  abbrev audit_entry : String → AuditMessage → AuditEntry
  audit_entry status message = record {
    action = "execute_plan";
    status = status;
    message = message;
  }

  abbrev failed : String → ℕ → OpError → ℕ → World → Result ExecuteError (List Done) × World
  failed plan i e n w = (
    err (op_failed i e n),
    record w { audit = w.audit ++ audit_entry "failed" (failed_at plan i e n) ∷ [] },
  )

  abbrev finished : String → List Operation → World → Result ExecuteError (List Done) × World
  finished plan done w = (
    ok (results done),
    record w { audit = w.audit ++ audit_entry "ok" (executed plan (length done)) ∷ [] },
  )

  -- the loop: `done` are the operations that were executed, in order
  unfoldable pub execute_from :
      String → List Operation → List Operation → World → Result ExecuteError (List Done) × World
  execute_from plan done [] w = finished plan done w
  execute_from plan done (op ∷ ops) w =
      let (r, sent) = apply_one op w.sent in
      elim r [
        | err e ↦
            failed plan (length done) e (roll_back (reverse done) 0) (record w { sent = sent })
        | ok _ ↦ execute_from plan (done ++ op ∷ []) ops (record w { sent = sent })
      ]

module _ (api : Api) (orbit : ℕ → ℕ) (rules : List Rule) where
  abbrev pub denies : Operation → Bool
  denies op = evaluate orbit rules (info op) == deny

  -- ExecutePlan; of its input only the plan's id is read
  unfoldable pub execute_plan :
      String → List Operation → World → Result ExecuteError (List Done) × World
  unfolding execute_from apply_one roll_back
  execute_plan plan ops w =
      if any denies ops then (err policy_changed, w) else execute_from api plan [] ops w
