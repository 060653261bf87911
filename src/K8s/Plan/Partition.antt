-- ===== src/K8s/Plan/Partition.antt =====
-- What a plan lists, for every operation that was asked.
use kubernetes_agent.Base.{
  ℕ, String, ◌≡◌, refl, true, false, Bool-cases, inl, inr, List, [], ◌∷◌, ok, ◌==◌, none, some,
  Option, if◌then◌else◌,
}
use kubernetes_agent.Policy.Rules.{Effect, Rule, deny}
use kubernetes_agent.Policy.Engine.{evaluate}
use kubernetes_agent.Json.{Fields}
use kubernetes_agent.K8s.Op.{Operation, info}
use kubernetes_agent.K8s.Api.{Api, Trace, Call, Existing, absent, present}
use kubernetes_agent.K8s.Summary.{Diff, DeniedOp, Printer, risk_from, summarize}
use kubernetes_agent.K8s.Returns.{
  Returns, Returns-bind_of, Returns-pure, Returns-bind, Returns-wrap, returns_rules,
}
use kubernetes_agent.K8s.Plan.{
  dry_create_or_patch, dry_apply, dry_read, dry_run, plan_one, plan_denied, plan_allowed, plan_rest,
  PlanError, PlanOutput, Lists, rejected, finish, plan_write,
}

-- a diff shows the operation's own action, resource and namespace
pub record IsAbout (op : Operation) (d : Diff) : Type 0 where
  pub action : d.action ≡ op.action
  pub resource : d.resource ≡ op.resource
  pub namespace : d.namespace ≡ op.namespace

module _ (api : Api) where
  about :
      (op : Operation) (name : String) (before after : Option Fields)
      → IsAbout op (record {
        action = op.action;
        resource = op.resource;
        name = name;
        namespace = op.namespace;
        before = before;
        after = after;
        risk = "";
        summary = "";
      })
  about op name before after = record { action = refl; resource = refl; namespace = refl }

  dry_create_or_patch-Returns :
      (op : Operation) (m : Fields) (e : Existing)
      → Returns (IsAbout op) (dry_create_or_patch api op m e)
  unfolding dry_create_or_patch
  dry_create_or_patch-Returns op m absent = search (returns_rules, about)
  dry_create_or_patch-Returns op m present = search (returns_rules, about)

  dry_apply-Returns :
      (op : Operation) (m : Option Fields) → Returns (IsAbout op) (dry_apply api op m)
  unfolding dry_apply
  dry_apply-Returns op none = search returns_rules
  dry_apply-Returns op (some m) = search (returns_rules, dry_create_or_patch-Returns)

  dry_read-Returns : (op : Operation) → Returns (IsAbout op) (dry_read api op)
  unfolding dry_read
  dry_read-Returns op = search (returns_rules, about)

  dry_run-Returns : (op : Operation) → Returns (IsAbout op) (dry_run api op)
  unfolding dry_run
  dry_run-Returns op = search (returns_rules, dry_apply-Returns, dry_read-Returns)

module _ (api : Api) (printer : Printer) (orbit : ℕ → ℕ) (rules : List Rule) where
  abbrev pub effect_of : Operation → Effect
  effect_of op = evaluate orbit rules (info op)

  -- the operations in turn: each is listed as denied or has a diff with its effect's risk
  pub data ListsAll : List Operation → List Diff → List DeniedOp → Type 0 where
    no_more : ListsAll [] [] []
    refused :
        {op : Operation} {ops : List Operation} {diffs : List Diff} {denied : List DeniedOp}
        → (effect_of op == deny) ≡ true
        → ListsAll ops diffs denied
        → ListsAll (op ∷ ops) diffs (rejected op ∷ denied)
    previewed :
        {op : Operation} {ops : List Operation} {d : Diff} {diffs : List Diff}
        {denied : List DeniedOp}
        → (effect_of op == deny) ≡ false
        → IsAbout op d
        → d.risk ≡ risk_from (effect_of op)
        → ListsAll ops diffs denied
        → ListsAll (op ∷ ops) (d ∷ diffs) denied

  -- what `plan_one` returns for an operation
  record IsPreview (op : Operation) (d : Diff) : Type 0 where
    shown : IsAbout op d
    risk : d.risk ≡ risk_from (effect_of op)

  with_risk :
      (op : Operation) (d : Diff) → IsAbout op d → IsPreview op (finish printer (effect_of op) d)
  with_risk op d h = record {
    shown = record { action = h.action; resource = h.resource; namespace = h.namespace };
    risk = refl;
  }

  plan_one-Returns :
      (op : Operation) → Returns (IsPreview op) (plan_one api printer orbit rules (effect_of op) op)
  unfolding plan_one
  plan_one-Returns op = Returns-bind _ _ (λ u.
      Returns-bind_of (IsAbout op) _ _ (Returns-wrap _ _ (dry_run-Returns api op))
        (λ d h. Returns-pure _ (with_risk op d h)))

  abbrev Listed : List Operation → Lists → Type 0
  Listed ops out = ListsAll ops out.0 out.1

  plan_step :
      (op : Operation) (ops : List Operation) (rest : Call PlanError Lists)
      → Returns (Listed ops) rest
      → Returns (Listed (op ∷ ops)) (
          if effect_of op == deny
          then plan_denied api printer orbit rules op rest
          else plan_allowed api printer orbit rules (effect_of op) op rest)
  plan_step op ops rest h = elim (Bool-cases (effect_of op == deny)) [
    | inl denied ↦ rw denied (
        unfold plan_denied in
        Returns-bind_of (Listed ops) _ _ h (λ out l. Returns-pure _ (refused denied l)))
    | inr fine ↦ rw fine (
        unfold plan_allowed in
        Returns-bind_of (IsPreview op) _ _ (plan_one-Returns op) (λ d p.
          Returns-bind_of (Listed ops) _ _ h
            (λ out l. Returns-pure _ (previewed fine p.shown p.risk l))))
  ]

  plan_rest-Returns :
      (ops : List Operation) → Returns (Listed ops) (plan_rest api printer orbit rules ops)
  unfolding plan_rest
  plan_rest-Returns [] = Returns-pure _ no_more
  plan_rest-Returns (op ∷ ops) =
      plan_step op ops (plan_rest api printer orbit rules ops) (plan_rest-Returns ops)

  -- the plan's id and summary are the given ones, and its lists cover the operations
  pub record IsPlan (plan_id : String) (ops : List Operation) (out : PlanOutput) : Type 0 where
    pub id : out.plan_id ≡ plan_id
    pub summary : out.summary ≡ summarize printer out.diffs out.denied
    pub lists : ListsAll ops out.diffs out.denied

  plan_write-Returns :
      (plan_id : String) (ops : List Operation)
      → Returns (IsPlan plan_id ops) (plan_write api printer orbit rules plan_id ops)
  unfolding plan_write
  plan_write-Returns plan_id ops =
      Returns-bind_of (Listed ops) _ _ (plan_rest-Returns ops)
        (λ out l. Returns-pure _ (record { id = refl; summary = refl; lists = l }))

  -- A plan that PlanWrite returns accounts for every operation, in order: one that the rules deny is
  -- in `denied` and has no diff, and any other has one diff, with its action, resource and namespace
  -- and the risk of its effect. The summary is that of these two lists.
  pub plan_write_partition :
      (plan_id : String) (ops : List Operation) (t : Trace) (out : PlanOutput)
      → (plan_write api printer orbit rules plan_id ops t).0 ≡ ok out
      → IsPlan plan_id ops out
  plan_write_partition plan_id ops = (plan_write-Returns plan_id ops).value
