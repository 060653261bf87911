-- ===== src/K8s/Plan.antt =====
-- PlanWrite and dryRun of internal/tools/k8s/plan_write.go.
pub mod Harmless
pub mod Partition
use kubernetes_agent.Base.{
  ℕ, String, Bool, true, false, List, [], ◌∷◌, ◌++◌, Option, none, some, Result, ok, err, ◌==◌,
  if◌then◌else◌,
}
use kubernetes_agent.Json.{Json, Fields}
use kubernetes_agent.Policy.Rules.{Effect, Rule, deny}
use kubernetes_agent.Policy.Engine.{evaluate}
use kubernetes_agent.K8s.Op.{Operation, info}
use kubernetes_agent.K8s.Api.{
  Gvr, Target, Request, get, create, patch, Api, OpError, needs_manifest, unknown_action, Trace,
  Call, ◌>>=◌, pure, fail, wrap, send, connect_to, Existing, absent, present, look,
}
use kubernetes_agent.K8s.Summary.{Diff, DeniedOp, Printer, risk_from, summarize_one, summarize}

pub record PlanOutput : Type 0 where
  pub plan_id : String
  pub summary : String
  pub diffs : List Diff
  pub denied : List DeniedOp

-- which of its two wrappings an error of PlanWrite has
pub data PlanError : Type 0 where
  get_client : String → OpError → PlanError
  dry_run_failed : String → String → String → OpError → PlanError

module _ (api : Api) where
  -- `dc.Resource(gvr).Namespace(ns)` with the name of an object
  abbrev pub target : Operation → String → Target
  target op name = record {
    cluster = op.cluster_id;
    gvr = api.resolve op.cluster_id op.resource;
    namespace = op.namespace;
    name = name;
  }

  -- a Diff before its risk and summary are set
  abbrev pub preview : Operation → String → Option Fields → Option Fields → Diff
  preview op name before after = record {
    action = op.action;
    resource = op.resource;
    name = name;
    namespace = op.namespace;
    before = before;
    after = after;
    risk = "";
    summary = "";
  }

  dry_create_or_patch : Operation → Fields → Existing → Call OpError Diff
  dry_create_or_patch op m absent = do
    created ← send api (create (target op (api.name_of m)) m true)
    pure (preview op (api.name_of m) none (some created))
  dry_create_or_patch op m present = do
    patched ← send api (patch (target op (api.name_of m)) m true)
    pure (preview op (api.name_of m) none (some patched))

  dry_apply : Operation → Option Fields → Call OpError Diff
  unfolding dry_create_or_patch
  dry_apply op none = fail needs_manifest
  dry_apply op (some m) = do
    existing ← look api (target op (api.name_of m))
    dry_create_or_patch op m existing

  -- the branches `delete` and `scale`
  dry_read : Operation → Call OpError Diff
  dry_read op = do
    cur ← send api (get (target op op.name))
    pure (preview op op.name (some cur) none)

  -- dryRun
  unfoldable pub dry_run : Operation → Call OpError Diff
  unfolding dry_apply dry_read
  dry_run op =
      if op.action == "apply"
      then dry_apply op op.manifest
      else if op.action == "delete"
      then dry_read op
      else if op.action == "scale"
      then dry_read op
      else fail (unknown_action op.action)

-- `out.Diffs` and `out.Denied`
abbrev pub Lists : Type 0
Lists = List Diff × List DeniedOp

abbrev pub finish : Printer → Effect → Diff → Diff
finish p eff d = record d {
  risk = risk_from eff;
  summary = summarize_one p (record d { risk = risk_from eff });
}

abbrev pub rejected : Operation → DeniedOp
rejected op = record { operation = op; reason = "policy deny" }

module _ (api : Api) (printer : Printer) (orbit : ℕ → ℕ) (rules : List Rule) where
  -- the body of the loop for an operation that is not denied
  plan_one : Effect → Operation → Call PlanError Diff
  plan_one eff op = do
    _ ← wrap (get_client op.cluster_id) (connect_to api op.cluster_id)
    d ← wrap (dry_run_failed op.action op.namespace op.name) (dry_run api op)
    pure (finish printer eff d)

  plan_denied : Operation → Call PlanError Lists → Call PlanError Lists
  plan_denied op rest = do out ← rest; pure (out.0, rejected op ∷ out.1)

  plan_allowed : Effect → Operation → Call PlanError Lists → Call PlanError Lists
  plan_allowed eff op rest = do d ← plan_one eff op; out ← rest; pure (d ∷ out.0, out.1)

  -- the loop over the operations
  plan_rest : List Operation → Call PlanError Lists
  plan_rest [] = pure ([], [])
  plan_rest (op ∷ ops) =
      let rest = plan_rest ops in
      let eff = evaluate orbit rules (info op) in
      if eff == deny then plan_denied op rest else plan_allowed eff op rest

  -- PlanWrite; `plan_id` is the value of uuid.NewString
  unfoldable pub plan_write : String → List Operation → Call PlanError PlanOutput
  unfolding plan_rest plan_denied plan_allowed plan_one
  plan_write plan_id ops = do
    out ← plan_rest ops
    pure (record {
      plan_id = plan_id;
      summary = summarize printer out.0 out.1;
      diffs = out.0;
      denied = out.1;
    })
