-- ===== src/Agent/Tools/Stored.antt =====
-- A plan between k8s_plan_write, which stores it, and k8s_execute_plan, which reads it back.
use kubernetes_agent.Base.{
  ℕ, ◌≡◌, refl, sym, ap, ◌∙◌, inl, inr, String, true, false, Bool-cases, List, [], ◌∷◌, ◌++◌,
  Option, some, Result, ok, err, Result-cases, any, ◌==◌, eq_refl, arith,
}
use kubernetes_agent.Policy.Rules.{Rule}
use kubernetes_agent.Store.Plans.{Plan, is_plan, create_plan, get_plan}
use kubernetes_agent.K8s.Op.{Operation}
use kubernetes_agent.K8s.Api.{Api, Trace}
use kubernetes_agent.K8s.Summary.{Printer}
use kubernetes_agent.K8s.Plan.{PlanError, PlanOutput, plan_write}
use kubernetes_agent.K8s.Plan.Partition.{plan_write_partition}
use kubernetes_agent.K8s.Execute.{Done, World, execute_plan}
use kubernetes_agent.Agent.Session.{Session}
use kubernetes_agent.Agent.Tools.Bound.{no_run, a_run, unbound}
use kubernetes_agent.Agent.Tools.{
  Codec, ToolError, decode_failed, no_cluster, ToolState, bind_ops, plan_row, save_plan, planned,
  plan_write_tool, load_ops_for_plan, run_plan, execute_plan_tool,
}

get_plan-append :
    (id : String) (rows : List Plan) (p : Plan)
    → any (is_plan id) rows ≡ false
    → p.id ≡ id
    → get_plan id (rows ++ p ∷ []) ≡ ok p
unfolding get_plan
get_plan-append id [] p h e = rw e (rw (eq_refl id))
get_plan-append id (q ∷ rows) p h e = ground (arith, h, get_plan-append id rows p)

-- the rows of a table, each with any status and time of execution
pub data SameButStatus : List Plan → List Plan → Type 0 where
  no_rows : SameButStatus [] []
  row :
      (p : Plan) (status : String) (at : Option ℕ) {ps qs : List Plan}
      → SameButStatus ps qs
      → SameButStatus (p ∷ ps) (record p { status = status; executed_at = at } ∷ qs)

module _ (codec : Codec) (now : ℕ) where
  load_here :
      (id : String) (p : Plan) (ps : List Plan)
      → (p.id == id) ≡ true
      → load_ops_for_plan codec now id (some (p ∷ ps))
        ≡ elim (codec.decode_ops p.ops_json) [ ok ops ↦ ok ops | err e ↦ err (decode_failed e) ]
  unfolding load_ops_for_plan get_plan
  load_here id p ps h = ground (arith, h)

  load_later :
      (id : String) (p : Plan) (ps : List Plan)
      → (p.id == id) ≡ false
      → load_ops_for_plan codec now id (some (p ∷ ps)) ≡ load_ops_for_plan codec now id (some ps)
  unfolding load_ops_for_plan get_plan
  load_later id p ps h = ground (arith, h)

  load-SameButStatus :
      (id : String) {ps qs : List Plan}
      → SameButStatus ps qs
      → load_ops_for_plan codec now id (some ps) ≡ load_ops_for_plan codec now id (some qs)
  load-SameButStatus id no_rows = refl
  load-SameButStatus id (row p status at {ps} {qs} rest) = elim (Bool-cases (p.id == id)) [
    | inl h ↦ load_here id p ps h ∙ sym (load_here id _ qs h)
    | inr h ↦ load_later id p ps h ∙ load-SameButStatus id rest ∙ sym (load_later id _ qs h)
  ]

  saved :
      (sessions : List String) (s : Session) (ops : List Operation) (out : PlanOutput)
      (rows : List Plan)
      → any (λ i. i == s.id) sessions ≡ true
      → any (is_plan out.plan_id) rows ≡ false
      → save_plan codec now sessions s ops out (some rows)
        ≡ some (rows ++ record (plan_row codec now s ops out) { created_at = now } ∷ [])
  unfolding save_plan create_plan
  saved sessions s ops out rows known fresh = ground (arith, known, fresh)

  load_last :
      (id : String) (rows : List Plan) (p : Plan) (ops : List Operation)
      → any (is_plan id) rows ≡ false
      → p.id ≡ id
      → codec.decode_ops p.ops_json ≡ ok ops
      → load_ops_for_plan codec now id (some (rows ++ p ∷ [])) ≡ ok ops
  unfolding load_ops_for_plan
  load_last id rows p ops fresh e codes = ground (arith, get_plan-append id rows p fresh e, codes)

  load_created :
      (sessions : List String) (s : Session) (ops : List Operation) (out : PlanOutput)
      (rows : List Plan)
      → any (λ i. i == s.id) sessions ≡ true
      → any (is_plan out.plan_id) rows ≡ false
      → codec.decode_ops (codec.encode_ops ops) ≡ ok ops
      → load_ops_for_plan codec now out.plan_id (save_plan codec now sessions s ops out (some rows))
        ≡ ok ops
  load_created sessions s ops out rows known fresh codes =
      ap (load_ops_for_plan codec now out.plan_id) (saved sessions s ops out rows known fresh)
      ∙ load_last out.plan_id rows _ ops fresh refl codes

module _ (codec : Codec) (now : ℕ) (api : Api) (orbit : ℕ → ℕ) (rules : List Rule) where
  -- two ways in which a handler ends, of which the plans are not compared
  abbrev pub Agree :
      Result ToolError (List Done) × ToolState → Result ToolError (List Done) × ToolState → Type 0
  Agree r r' = (r.0 ≡ r'.0) × (r.1.world ≡ r'.1.world)

  run_same :
      (bound plan_id : String) (ops : List Operation) (ps qs : Option (List Plan)) (w : World)
      → Agree
          (run_plan codec now api orbit rules bound plan_id ops (record { plans = ps; world = w }))
          (run_plan codec now api orbit rules bound plan_id ops (record { plans = qs; world = w }))
  unfolding run_plan
  run_same bound plan_id ops ps qs w =
      elim (Result-cases (execute_plan api orbit rules plan_id (bind_ops bound ops) w).0) [
        | inl (e, h) ↦ (ground (arith, h), ground (arith, h))
        | inr (done, h) ↦ (ground (arith, h), ground (arith, h))
      ]

  agree :
      {r r' : Result ToolError (List Done) × ToolState}
      (a b : Result ToolError (List Done) × ToolState)
      → r ≡ a
      → r' ≡ b
      → Agree a b
      → Agree r r'
  agree a b e e' h = rw (e, e') h

  -- k8s_execute_plan never looks at what happened to the plan: on two tables that agree in everything
  -- but the status and the time of execution of their plans it returns the same result and leaves
  -- the same requests and audit log. A plan that was cancelled, or executed before, runs.
  pub execute_plan_tool-SameButStatus :
      (s : Session) (input : Result String String) (st : ToolState) (ps qs : List Plan)
      → SameButStatus ps qs
      → Agree
          (execute_plan_tool codec now api orbit rules s input (record st { plans = some ps }))
          (execute_plan_tool codec now api orbit rules s input (record st { plans = some qs }))
  execute_plan_tool-SameButStatus s (err e) st ps qs same = unfold execute_plan_tool in (refl, refl)
  execute_plan_tool-SameButStatus s (ok id) st ps qs same =
      let t : ToolState = record st { plans = some ps } in
      let u : ToolState = record st { plans = some qs } in
      let loads = load-SameButStatus codec now id same in
      elim (Bool-cases (s.cluster_id == "")) [
        | inl b ↦
            agree (err no_cluster, t) (err no_cluster, u)
              (unbound codec now api orbit rules s id t b)
              (unbound codec now api orbit rules s id u b) (refl, refl)
        | inr b ↦ elim (Result-cases (load_ops_for_plan codec now id (some ps))) [
          | inl (e, h) ↦
              agree (err e, t) (err e, u) (no_run codec now api orbit rules s id t e b h)
                (no_run codec now api orbit rules s id u e b (sym loads ∙ h)) (refl, refl)
          | inr (ops, h) ↦
              agree _ _ (a_run codec now api orbit rules s id t ops b h)
                (a_run codec now api orbit rules s id u ops b (sym loads ∙ h))
                (run_same s.cluster_id id ops (some ps) (some qs) st.world)
        ]
      ]

module _ (codec : Codec) (now : ℕ) (api : Api) (printer : Printer) (orbit : ℕ → ℕ)
    (rules : List Rule) where
  planned_ok :
      (sessions : List String) (s : Session) (ops : List Operation) (st : ToolState)
      (r : Result PlanError PlanOutput) (t : Trace) (out : PlanOutput)
      → (planned codec now api printer orbit rules sessions s ops st r t).0 ≡ ok out
      → (r ≡ ok out)
        × ((planned codec now api printer orbit rules sessions s ops st r t).1.plans
            ≡ save_plan codec now sessions s ops out st.plans)
  unfolding planned
  planned_ok sessions s ops st (err e) t out h = cc h
  planned_ok sessions s ops st (ok out') t out h =
      let e : out' ≡ out = cc h in
      (ap ok e, ap (λ o. save_plan codec now sessions s ops o st.plans) e)

  tool_planned :
      (plan_id : String) (sessions : List String) (s : Session) (ops : List Operation)
      (st : ToolState) (out : PlanOutput)
      → (plan_write_tool codec now api printer orbit rules plan_id sessions s (ok ops) st).0
        ≡ ok out
      → let bound = bind_ops s.cluster_id ops in
        let r = plan_write api printer orbit rules plan_id bound st.world.sent in
        plan_write_tool codec now api printer orbit rules plan_id sessions s (ok ops) st
        ≡ planned codec now api printer orbit rules sessions s bound st r.0 r.1
  unfolding plan_write_tool
  tool_planned plan_id sessions s ops st out h = elim (Bool-cases (s.cluster_id == "")) [
    | inl b ↦ cc (rw b at h)
    | inr b ↦ rw b refl
  ]

  -- A plan that k8s_plan_write returns can be executed as it was planned: the operations that
  -- k8s_execute_plan loads under the plan's id are the ones that were planned, if the plan's id is new,
  -- the session's row exists, and encoding/json reads the operations back from the text that it prints
  -- for them. Those that were planned are the input's after the loop that binds each to the session's
  -- cluster, in which replicas of 2^53 and more are rounded or leave the operation as it was.
  pub plan_write_tool-load_ops_for_plan :
      (plan_id : String) (sessions : List String) (s : Session) (ops : List Operation)
      (st : ToolState) (rows : List Plan) (out : PlanOutput)
      → st.plans ≡ some rows
      → any (is_plan plan_id) rows ≡ false
      → any (λ i. i == s.id) sessions ≡ true
      → codec.decode_ops (codec.encode_ops (bind_ops s.cluster_id ops))
        ≡ ok (bind_ops s.cluster_id ops)
      → (plan_write_tool codec now api printer orbit rules plan_id sessions s (ok ops) st).0
        ≡ ok out
      → load_ops_for_plan codec now out.plan_id
          (plan_write_tool codec now api printer orbit rules plan_id sessions s (ok ops) st).1.plans
        ≡ ok (bind_ops s.cluster_id ops)
  plan_write_tool-load_ops_for_plan plan_id sessions s ops st rows out table fresh known codes h =
      let bound = bind_ops s.cluster_id ops in
      let e = tool_planned plan_id sessions s ops st out h in
      let (made, kept) = planned_ok sessions s bound st _ _ out (ap (λ r. r.0) (sym e) ∙ h) in
      let same =
        (plan_write_partition api printer orbit rules plan_id bound st.world.sent out made).id in
      ap (λ r. load_ops_for_plan codec now out.plan_id r.1.plans) e
      ∙ ap (load_ops_for_plan codec now out.plan_id)
          (kept ∙ ap (save_plan codec now sessions s bound out) table)
      ∙ load_created codec now sessions s bound out rows known (rw same fresh) codes
