-- ===== src/K8s/Plan/Harmless.antt =====
-- Building a plan changes nothing in any cluster.
use kubernetes_agent.Base.{
  ℕ, String, ◌≡◌, List, [], ◌∷◌, ◌++◌, false, Option, none, some, All, ◌==◌,
}
use kubernetes_agent.Policy.Rules.{Effect, Rule, deny}
use kubernetes_agent.Policy.Engine.{evaluate}
use kubernetes_agent.Json.{Fields}
use kubernetes_agent.K8s.Op.{Operation, info}
use kubernetes_agent.K8s.Api.{Request, Api, Trace, Call, is_mutating, Existing, absent, present}
use kubernetes_agent.K8s.Summary.{Printer}
use kubernetes_agent.K8s.Sends.{Sends, Sends-if, sends_rules}
use kubernetes_agent.K8s.Plan.{
  dry_create_or_patch, dry_apply, dry_read, dry_run, plan_one, plan_denied, plan_allowed, plan_rest,
  PlanError, Lists, plan_write,
}

abbrev pub IsHarmless : Request → Type 0
IsHarmless q = is_mutating q ≡ false

module _ (api : Api) where
  dry_create_or_patch-Sends :
      (op : Operation) (m : Fields) (e : Existing)
      → Sends IsHarmless (dry_create_or_patch api op m e)
  unfolding dry_create_or_patch
  dry_create_or_patch-Sends op m absent = search sends_rules
  dry_create_or_patch-Sends op m present = search sends_rules

  dry_apply-Sends : (op : Operation) (m : Option Fields) → Sends IsHarmless (dry_apply api op m)
  unfolding dry_apply
  dry_apply-Sends op none = search sends_rules
  dry_apply-Sends op (some m) = search (sends_rules, dry_create_or_patch-Sends)

  dry_read-Sends : (op : Operation) → Sends IsHarmless (dry_read api op)
  unfolding dry_read
  dry_read-Sends op = search sends_rules

  dry_run-Sends : (op : Operation) → Sends IsHarmless (dry_run api op)
  unfolding dry_run
  dry_run-Sends op = search (sends_rules, dry_apply-Sends, dry_read-Sends)

module _ (api : Api) (printer : Printer) (orbit : ℕ → ℕ) (rules : List Rule) where
  plan_one-Sends :
      (eff : Effect) (op : Operation) → Sends IsHarmless (plan_one api printer orbit rules eff op)
  unfolding plan_one
  plan_one-Sends eff op = search (sends_rules, dry_run-Sends)

  plan_denied-Sends :
      (op : Operation) (rest : Call PlanError Lists)
      → Sends IsHarmless rest
      → Sends IsHarmless (plan_denied api printer orbit rules op rest)
  unfolding plan_denied
  plan_denied-Sends op rest h = search sends_rules

  plan_allowed-Sends :
      (eff : Effect) (op : Operation) (rest : Call PlanError Lists)
      → Sends IsHarmless rest
      → Sends IsHarmless (plan_allowed api printer orbit rules eff op rest)
  unfolding plan_allowed
  plan_allowed-Sends eff op rest h = search (sends_rules, plan_one-Sends)

  plan_rest-Sends :
      (ops : List Operation) → Sends IsHarmless (plan_rest api printer orbit rules ops)
  unfolding plan_rest
  plan_rest-Sends [] = search sends_rules
  plan_rest-Sends (op ∷ ops) =
      Sends-if (evaluate orbit rules (info op) == deny) _ _
        (plan_denied-Sends op (plan_rest api printer orbit rules ops) (plan_rest-Sends ops))
        (plan_allowed-Sends (evaluate orbit rules (info op)) op
          (plan_rest api printer orbit rules ops) (plan_rest-Sends ops))

  plan_write-Sends :
      (plan_id : String) (ops : List Operation)
      → Sends IsHarmless (plan_write api printer orbit rules plan_id ops)
  unfolding plan_write
  plan_write-Sends plan_id ops = search (sends_rules, plan_rest-Sends)

  -- Whatever the operations, the rules and the answers of the servers, and whether it ends with a plan
  -- or an error, PlanWrite sends no request that may change a cluster: every request that it adds is
  -- a read or a dry run.
  pub plan_write-IsHarmless :
      (plan_id : String) (ops : List Operation) (t : Trace)
      → (extra : Trace) × ((plan_write api printer orbit rules plan_id ops t).1 ≡ t ++ extra)
        × All IsHarmless extra
  plan_write-IsHarmless plan_id ops t =
      let s = plan_write-Sends plan_id ops in (s.extra t, s.extends t, s.holds t)
