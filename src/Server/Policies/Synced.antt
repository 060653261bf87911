-- ===== src/Server/Policies/Synced.antt =====
-- The engine follows the policies table through every edit.
use kubernetes_agent.Base.{
  ℕ, String, true, false, List, [], ◌∷◌, ◌++◌, ◌≡◌, refl, inl, inr, none, some, arith, All,
  Bool-cases, Result-cases, Result, ok, err, ◌==◌,
}
use kubernetes_agent.Store.Failure.{DbError, not_found, constraint, encoding}
use kubernetes_agent.Store.Policies.{
  Policy, engine_rows, upsert_policy, list_enabled_policies, list_enabled_policies_for_engine,
  delete_policy, set_enabled, list_all_policies,
}
use kubernetes_agent.Store.Audit.{AuditEntry, append_audit}
use kubernetes_agent.Policy.Rules.{Rule}
use kubernetes_agent.Policy.Reload.{load_rules, load_rules-cons, reload_policies-ok}
use kubernetes_agent.Server.Response.{Reply, invalid_json, view, no_content, internal, is_failure}
use kubernetes_agent.Server.Policies.{
  Service, PolicyView, to_policy_view, PolicyRequest, create, update, delete, toggle, request_row,
  audited, not_there, policy_with, checked_rule, reload_and_audit, with_policies, store_policy,
  create_policy, update_policy, finish_edit, serve_policy,
}
use kubernetes_agent.Server.Policies.Readable.{
  Readable, All-order_by_name, All-where_enabled, All-upsert_policy, All-delete_policy,
  All-set_enabled,
}

module _ (decode : String → Result DbError Rule) where
  -- readable rows load
  load_rules-total :
      (rows : List Policy)
      → All (Readable decode) rows
      → (rules : List Rule) × (load_rules decode (engine_rows rows) ≡ ok rules)
  unfolding load_rules
  load_rules-total [] h = ([], refl)
  load_rules-total (p ∷ rows) h =
      let (rules, loaded) = load_rules-total rows h.1 in
      elim (Bool-cases (p.yaml == "")) [
        | inl blank ↦ (rules, ground (arith, blank, loaded))
        | inr text ↦
            let (rule, read) = h.0 in
            (
              _,
              load_rules-cons decode (record { name = p.name; yaml = p.yaml }) (engine_rows rows)
                  rule rules text read loaded,
            )
      ]

  -- the engine holds the rules of the enabled rows
  pub record IsSynced (s : Service) : Type 0 where
    pub readable : All (Readable decode) s.policies
    pub loaded :
        (load_rules decode (engine_rows (list_enabled_policies s.policies)) ≡ ok s.engine.rules)

  reload_and_audit-IsSynced :
      (now : ℕ) (action target : String) (s : Service)
      → All (Readable decode) s.policies
      → IsSynced (reload_and_audit decode now action target s)
  unfolding reload_and_audit list_enabled_policies_for_engine
  reload_and_audit-IsSynced now action target s h =
      let listed : All (Readable decode) (list_enabled_policies s.policies) =
        unfold list_enabled_policies in
        All-order_by_name (Readable decode) _ (All-where_enabled (Readable decode) s.policies h) in
      let (rules, loaded) = load_rules-total (list_enabled_policies s.policies) listed in
      let done =
        reload_policies-ok decode (engine_rows (list_enabled_policies s.policies)) rules s.engine
          loaded in
      record { readable = h; loaded = rw done loaded }

  -- a reply with the state after it: a failure and no change, or a synced state and one audit entry
  -- more
  pub data IsServed (s : Service) : Reply PolicyView × Service → Type 0 where
    refused : (reply : Reply PolicyView) → is_failure reply ≡ true → IsServed s (reply, s)
    edited :
        (reply : Reply PolicyView) (s' : Service) (e : AuditEntry)
        → is_failure reply ≡ false
        → s'.audit.rows ≡ s.audit.rows ++ e ∷ []
        → IsSynced s'
        → IsServed s (reply, s')

  reload_and_audit-IsServed :
      (now : ℕ) (action target : String) (s : Service) (rows : List Policy)
      (reply : Reply PolicyView)
      → is_failure reply ≡ false
      → All (Readable decode) rows
      → IsServed s (reply, reload_and_audit decode now action target (with_policies decode s rows))
  unfolding reload_and_audit append_audit
  reload_and_audit-IsServed now action target s rows reply fine h =
      edited reply (reload_and_audit decode now action target (with_policies decode s rows))
        (record (audited action target) { id = s.audit.next; created_at = now }) fine refl
        (reload_and_audit-IsSynced now action target (with_policies decode s rows) h)

  checked_rule-Readable :
      (yaml : String) (rule : Rule) → checked_rule decode yaml ≡ ok rule → decode yaml ≡ ok rule
  unfolding checked_rule
  checked_rule-Readable yaml rule h = ground arith

  checked_rule-refused :
      (yaml : String) (reply : Reply PolicyView)
      → checked_rule decode yaml ≡ err reply
      → is_failure reply ≡ true
  unfolding checked_rule
  checked_rule-refused yaml reply h = ground arith

  not_there-refused : (e : DbError) → is_failure (not_there e) ≡ true
  not_there-refused not_found = refl
  not_there-refused constraint = refl
  not_there-refused (encoding text) = refl

  store_policy-stored :
      (now : ℕ) (action : String) (status : ℕ) (row : Policy) (s : Service) (rows : List Policy)
      → upsert_policy now row s.policies ≡ ok rows
      → store_policy decode now action status row s ≡ (
        view status (to_policy_view row),
        reload_and_audit decode now action row.id (with_policies decode s rows),
      )
  unfolding store_policy
  store_policy-stored now action status row s rows h = ground (arith, h)

  store_policy-failed :
      (now : ℕ) (action : String) (status : ℕ) (row : Policy) (s : Service) (e : DbError)
      → upsert_policy now row s.policies ≡ err e
      → store_policy decode now action status row s ≡ (internal, s)
  unfolding store_policy
  store_policy-failed now action status row s e h = ground (arith, h)

  store_policy-IsServed :
      (now : ℕ) (action : String) (status : ℕ) (row : Policy) (s : Service)
      → Readable decode row
      → All (Readable decode) s.policies
      → IsServed s (store_policy decode now action status row s)
  store_policy-IsServed now action status row s read h =
      elim (Result-cases (upsert_policy now row s.policies)) [
        | inl (e, g) ↦ rw (store_policy-failed now action status row s e g) (refused internal refl)
        | inr (rows, g) ↦ rw (store_policy-stored now action status row s rows g) (
            reload_and_audit-IsServed now action row.id s rows _ refl
              (All-upsert_policy decode now row s.policies rows read h g))
      ]

  finish_edit-IsServed :
      (now : ℕ) (action id : String) (r : Result DbError (List Policy)) (s : Service)
      → ((rows : List Policy) → r ≡ ok rows → All (Readable decode) rows)
      → IsServed s (finish_edit decode now action id r s)
  unfolding finish_edit
  finish_edit-IsServed now action id (err e) s h = refused (not_there e) (not_there-refused e)
  finish_edit-IsServed now action id (ok rows) s h =
      reload_and_audit-IsServed now action id s rows no_content refl (h rows refl)

  create_policy-IsServed :
      (now : ℕ) (id yaml : String) (s : Service)
      → All (Readable decode) s.policies
      → IsServed s (create_policy decode now id yaml s)
  unfolding create_policy
  create_policy-IsServed now id yaml s h = elim (Result-cases (checked_rule decode yaml)) [
    | inl (reply, g) ↦
        let e : create_policy decode now id yaml s ≡ (reply, s) = ground (arith, g) in
        rw e (refused reply (checked_rule-refused yaml reply g))
    | inr (rule, g) ↦
        let row = request_row id rule yaml true in
        let e : create_policy decode now id yaml s
            ≡ store_policy decode now "policy_create" 201 row s =
          ground (arith, g) in
        rw e (
          store_policy-IsServed now "policy_create" 201 row s
            (rule, checked_rule-Readable yaml rule g) h)
  ]

  update_policy-IsServed :
      (now : ℕ) (id yaml : String) (s : Service)
      → All (Readable decode) s.policies
      → IsServed s (update_policy decode now id yaml s)
  unfolding update_policy
  update_policy-IsServed now id yaml s h = elim (Result-cases (checked_rule decode yaml)) [
    | inl (reply, g) ↦
        let e : update_policy decode now id yaml s ≡ (reply, s) = ground (arith, g) in
        rw e (refused reply (checked_rule-refused yaml reply g))
    | inr (rule, g) ↦ elim (Result-cases (policy_with id (list_all_policies s.policies))) [
      | inl (d, k) ↦
          let e : update_policy decode now id yaml s ≡ (not_there d, s) = ground (arith, g, k) in
          rw e (refused (not_there d) (not_there-refused d))
      | inr (p, k) ↦
          let row = request_row id rule yaml p.enabled in
          let e : update_policy decode now id yaml s
              ≡ store_policy decode now "policy_update" 200 row s =
            ground (arith, g, k) in
          rw e (
            store_policy-IsServed now "policy_update" 200 row s
              (rule, checked_rule-Readable yaml rule g) h)
    ]
  ]

  -- A request to create, update, delete or toggle a policy either answers a failure and changes
  -- nothing, or answers none, adds one entry to the audit log, and leaves a table whose every YAML is
  -- readable and an engine that holds the rules of the enabled rows, whatever it held; if every YAML was
  -- readable before.
  pub serve_policy-IsServed :
      (now : ℕ) (fresh : String) (r : PolicyRequest) (s : Service)
      → All (Readable decode) s.policies
      → IsServed s (serve_policy decode now fresh r s)
  unfolding serve_policy
  serve_policy-IsServed now fresh (create none) s h = refused invalid_json refl
  serve_policy-IsServed now fresh (create (some yaml)) s h =
      create_policy-IsServed now fresh yaml s h
  serve_policy-IsServed now fresh (update id none) s h = refused invalid_json refl
  serve_policy-IsServed now fresh (update id (some yaml)) s h =
      update_policy-IsServed now id yaml s h
  serve_policy-IsServed now fresh (delete id) s h =
      finish_edit-IsServed now "policy_delete" id (delete_policy id s.policies) s
        (λ rows e. All-delete_policy decode id s.policies rows h e)
  serve_policy-IsServed now fresh (toggle id none) s h = refused invalid_json refl
  serve_policy-IsServed now fresh (toggle id (some enabled)) s h =
      finish_edit-IsServed now "policy_toggle" id (set_enabled now id enabled s.policies) s
        (λ rows e. All-set_enabled decode now id enabled s.policies rows h e)
