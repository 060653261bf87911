-- ===== src/Agent/Tools/Bound.antt =====
-- The cluster that an execution reaches.
use kubernetes_agent.Base.{
  ℕ, ◌≡◌, refl, sym, ap, subst, ◌∙◌, ◌⊎◌, String, Bool-cases, Result-cases, inl, inr, true, false,
  List, [], ◌∷◌, Result, ok, err, ◌==◌, arith,
}
use mathlib.Core.List.{Memᴰ}
use kubernetes_agent.Policy.Rules.{Rule}
use kubernetes_agent.K8s.Op.{Operation}
use kubernetes_agent.K8s.Rebind.{bind_op, KeepsCluster, bind_op-cases}
use kubernetes_agent.K8s.Api.{Api, Request, target_of}
use kubernetes_agent.K8s.Execute.{execute_plan}
use kubernetes_agent.K8s.Execute.Reach.{Adds, Adds-none, Adds-map, Licensed, execute_plan-Licensed}
use kubernetes_agent.Agent.Session.{Session}
use kubernetes_agent.Agent.Tools.{
  Codec, ToolError, no_cluster, ToolState, bind_ops, load_ops_for_plan, run_plan, execute_plan_tool,
}

-- about the session's cluster, or that of a stored operation that is not read back from its map
pub data IsIn (bound : String) (ops : List Operation) (q : Request) : Type 0 where
  within : (target_of q).cluster ≡ bound → IsIn bound ops q
  escaped :
      (op : Operation)
      → Memᴰ op ops
      → KeepsCluster op
      → (target_of q).cluster ≡ op.cluster_id
      → IsIn bound ops q

-- the operation that a bound one comes from
bind_ops-from :
    (bound : String) (ops : List Operation) (op : Operation)
    → Memᴰ op (bind_ops bound ops)
    → (from : Operation) × Memᴰ from ops × (op ≡ bind_op bound from)
unfolding bind_ops
bind_ops-from bound [] op m = elim m [ ]
bind_ops-from bound (o ∷ ops) op (Memᴰ.head e) = (o, Memᴰ.head refl, e)
bind_ops-from bound (o ∷ ops) op (Memᴰ.tail m) =
    let (from, planned, e) = bind_ops-from bound ops op m in (from, Memᴰ.tail planned, e)

bind_ops-IsIn :
    (bound : String) (ops : List Operation) (op : Operation) (q : Request)
    → Memᴰ op (bind_ops bound ops)
    → (target_of q).cluster ≡ op.cluster_id
    → IsIn bound ops q
bind_ops-IsIn bound ops op q m c =
    let (from, planned, e) = bind_ops-from bound ops op m in
    let at : (target_of q).cluster ≡ (bind_op bound from).cluster_id =
      c ∙ ap (λ (o : Operation). o.cluster_id) e in
    elim (bind_op-cases bound from) [
      | inl h ↦ within (at ∙ h)
      | inr (same, keeps) ↦
          escaped from planned keeps (at ∙ ap (λ (o : Operation). o.cluster_id) same)
    ]

module _ (codec : Codec) (now : ℕ) (api : Api) (orbit : ℕ → ℕ) (rules : List Rule) where
  Licensed-IsIn :
      (bound : String) (ops : List Operation) (q : Request)
      → Licensed api orbit rules (bind_ops bound ops) q
      → IsIn bound ops q
  Licensed-IsIn bound ops q l =
      let (name, e) = l.about in bind_ops-IsIn bound ops l.op q l.planned (ap (λ t. t.cluster) e)

  run_plan-world :
      (bound plan_id : String) (ops : List Operation) (st : ToolState)
      → (run_plan codec now api orbit rules bound plan_id ops st).1.world
        ≡ (execute_plan api orbit rules plan_id (bind_ops bound ops) st.world).1
  unfolding run_plan
  run_plan-world bound plan_id ops st =
      elim (Result-cases (execute_plan api orbit rules plan_id (bind_ops bound ops) st.world).0) [
        | inl (e, h) ↦ ground (arith, h)
        | inr (done, h) ↦ ground (arith, h)
      ]

  pub no_run :
      (s : Session) (plan_id : String) (st : ToolState) (e : ToolError)
      → (s.cluster_id == "") ≡ false
      → load_ops_for_plan codec now plan_id st.plans ≡ err e
      → execute_plan_tool codec now api orbit rules s (ok plan_id) st ≡ (err e, st)
  unfolding execute_plan_tool
  no_run s plan_id st e b h = ground (arith, b, h)

  pub a_run :
      (s : Session) (plan_id : String) (st : ToolState) (ops : List Operation)
      → (s.cluster_id == "") ≡ false
      → load_ops_for_plan codec now plan_id st.plans ≡ ok ops
      → execute_plan_tool codec now api orbit rules s (ok plan_id) st
        ≡ run_plan codec now api orbit rules s.cluster_id plan_id ops st
  unfolding execute_plan_tool
  a_run s plan_id st ops b h = ground (arith, b, h)

  pub unbound :
      (s : Session) (plan_id : String) (st : ToolState)
      → (s.cluster_id == "") ≡ true
      → execute_plan_tool codec now api orbit rules s (ok plan_id) st ≡ (err no_cluster, st)
  unfolding execute_plan_tool
  unbound s plan_id st b = rw b refl

  -- the handler stops before it changes anything, or it runs the operations that the plan has
  pub execute_plan_tool-cases :
      (s : Session) (plan_id : String) (st : ToolState)
      → ((execute_plan_tool codec now api orbit rules s (ok plan_id) st).1 ≡ st)
        ⊎ ((ops : List Operation) × (load_ops_for_plan codec now plan_id st.plans ≡ ok ops)
            × (execute_plan_tool codec now api orbit rules s (ok plan_id) st
                ≡ run_plan codec now api orbit rules s.cluster_id plan_id ops st))
  execute_plan_tool-cases s plan_id st = elim (Bool-cases (s.cluster_id == "")) [
    | inl b ↦ inl (ap (λ r. r.1) (unbound s plan_id st b))
    | inr b ↦ elim (Result-cases (load_ops_for_plan codec now plan_id st.plans)) [
      | inl (e, h) ↦ inl (ap (λ r. r.1) (no_run s plan_id st e b h))
      | inr (ops, h) ↦ inr (ops, h, a_run s plan_id st ops b h)
    ]
  ]

  stays :
      {P : Request → Type 0} (st st' : ToolState) → st' ≡ st → Adds P st.world.sent st'.world.sent
  stays st st' e = Adds-none (ap (λ s. s.world.sent) e)

  -- the operations that k8s_execute_plan loads, none where it loads none
  abbrev pub or_no_ops : Result ToolError (List Operation) → List Operation
  or_no_ops (err e) = []
  or_no_ops (ok ops) = ops

  abbrev pub loaded : Result String String → ToolState → List Operation
  loaded (err e) st = []
  loaded (ok plan_id) st = or_no_ops (load_ops_for_plan codec now plan_id st.plans)

  loaded-ok :
      (plan_id : String) (st : ToolState) (ops : List Operation)
      → load_ops_for_plan codec now plan_id st.plans ≡ ok ops
      → loaded (ok plan_id) st ≡ ops
  loaded-ok plan_id st ops h = ap or_no_ops h

  -- Every request that k8s_execute_plan adds, whether it succeeds or fails, is about the cluster to which
  -- the session is bound, whatever cluster the stored operations name; but for an operation that is
  -- not read back from the map in which its cluster is set, which takes replicas of 2^53 or more:
  -- its requests are about the cluster that it names.
  pub execute_plan_tool-IsIn :
      (s : Session) (input : Result String String) (st : ToolState)
      → Adds
          (IsIn s.cluster_id (loaded input st))
          st.world.sent
          (execute_plan_tool codec now api orbit rules s input st).1.world.sent
  execute_plan_tool-IsIn s (err e) st = unfold execute_plan_tool in Adds-none refl
  execute_plan_tool-IsIn s (ok plan_id) st = elim (execute_plan_tool-cases s plan_id st) [
    | inl same ↦ stays st _ same
    | inr (ops, h, e) ↦
        let world = ap (λ r. r.1.world) e ∙ run_plan-world s.cluster_id plan_id ops st in
        rw (loaded-ok plan_id st ops h) (
          subst (λ w. Adds (IsIn s.cluster_id ops) st.world.sent w.sent) (sym world)
            (Adds-map (Licensed-IsIn s.cluster_id ops)
              (execute_plan-Licensed api orbit rules plan_id (bind_ops s.cluster_id ops) st.world)))
  ]
