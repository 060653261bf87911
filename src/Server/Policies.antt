-- ===== src/Server/Policies.antt =====
-- internal/server/handler_policies.go: the handlers that edit policies and reload the engine. The
-- requests come one at a time.
pub mod Readable
pub mod Synced
use kubernetes_agent.Base.{
  ℕ, String, Bool, true, false, List, [], ◌∷◌, Option, none, some, Result, ok, err, ◌==◌,
  if◌then◌else◌,
}
use kubernetes_agent.Store.Failure.{DbError, not_found}
use kubernetes_agent.Store.Policies.{
  Policy, upsert_policy, list_enabled_policies_for_engine, list_all_policies, delete_policy,
  set_enabled,
}
use kubernetes_agent.Store.Audit.{AuditEntry, AuditTable, append_audit}
use kubernetes_agent.Policy.Rules.{Rule}
use kubernetes_agent.Policy.Reload.{Engine, reload_policies}
use kubernetes_agent.Server.Response.{
  Reply, view, no_content, failure, invalid_json, internal, invalid,
}

pub record Service : Type 0 where
  pub policies : List Policy
  pub engine : Engine
  pub audit : AuditTable

pub record PolicyView : Type 0 where
  pub id : String
  pub name : String
  pub yaml : String
  pub enabled : Bool
  pub created_at : ℕ
  pub updated_at : ℕ

abbrev pub to_policy_view : Policy → PolicyView
to_policy_view p = record {
  id = p.id;
  name = p.name;
  yaml = p.yaml;
  enabled = p.enabled;
  created_at = p.created_at;
  updated_at = p.updated_at;
}

-- the row of a request: its times are Go's zero time, here 0, as the store sets them by itself
abbrev pub request_row : String → Rule → String → Bool → Policy
request_row id rule yaml enabled = record {
  id = id;
  name = rule.name;
  yaml = yaml;
  enabled = enabled;
  created_at = 0;
  updated_at = 0;
}

abbrev pub policy_views : List Policy → List PolicyView
policy_views [] = []
policy_views (p ∷ rows) = to_policy_view p ∷ policy_views rows

-- listPoliciesHandler
unfoldable pub list_policies : Service → Reply (List PolicyView)
unfolding list_all_policies
list_policies s = view 200 (policy_views (list_all_policies s.policies))

abbrev pub audited : String → String → AuditEntry
audited action target = record {
  id = 0;
  session_id = none;
  cluster_id = none;
  action = action;
  target = some target;
  status = "ok";
  message = some "actor=user";
  created_at = 0;
}

abbrev pub not_there : DbError → Reply PolicyView
not_there not_found = failure 404 "not_found" false
not_there e = internal

-- getPolicyByID
unfoldable pub policy_with : String → List Policy → Result DbError Policy
policy_with id [] = err not_found
policy_with id (p ∷ rows) = let rest = policy_with id rows in if p.id == id then ok p else rest

-- the requests; the body of a create, update or toggle is `none` where it is not JSON
pub data PolicyRequest : Type 0 where
  create : Option String → PolicyRequest
  update : String → Option String → PolicyRequest
  delete : String → PolicyRequest
  toggle : String → Option Bool → PolicyRequest

-- `decode` is yaml.Unmarshal into a Rule
module _ (decode : String → Result DbError Rule) where
  -- the checks that a create and an update share
  unfoldable pub checked_rule : String → Result (Reply PolicyView) Rule
  checked_rule yaml = if yaml == "" then err invalid else elim (decode yaml) [
    | err e ↦ err (failure 400 "invalid_yaml" false)
    | ok rule ↦
        if rule.name == "" then err invalid else if rule.effect == "" then err invalid else ok rule
  ]

  -- ReloadPolicies, whose error is only logged, and writeAudit
  unfoldable pub reload_and_audit : ℕ → String → String → Service → Service
  unfolding reload_policies list_enabled_policies_for_engine append_audit
  reload_and_audit now action target s = record s {
    engine = (reload_policies decode (list_enabled_policies_for_engine s.policies) s.engine).1;
    audit = (append_audit now (audited action target) s.audit).1;
  }

  abbrev pub with_policies : Service → List Policy → Service
  with_policies s rows = record s { policies = rows }

  -- UpsertPolicy and what follows it
  unfoldable pub store_policy : ℕ → String → ℕ → Policy → Service → Reply PolicyView × Service
  unfolding upsert_policy reload_and_audit
  store_policy now action status row s = elim (upsert_policy now row s.policies) [
    | err e ↦ (internal, s)
    | ok rows ↦ (
      view status (to_policy_view row),
      reload_and_audit now action row.id (with_policies s rows),
    )
  ]

  -- createPolicyHandler; `id` is uuid.NewString's
  unfoldable pub create_policy : ℕ → String → String → Service → Reply PolicyView × Service
  unfolding checked_rule store_policy
  create_policy now id yaml s = elim (checked_rule yaml) [
    | err reply ↦ (reply, s)
    | ok rule ↦ store_policy now "policy_create" 201 (request_row id rule yaml true) s
  ]

  -- updatePolicyHandler
  unfoldable pub update_policy : ℕ → String → String → Service → Reply PolicyView × Service
  unfolding checked_rule store_policy policy_with list_all_policies
  update_policy now id yaml s = elim (checked_rule yaml) [
    | err reply ↦ (reply, s)
    | ok rule ↦ elim (policy_with id (list_all_policies s.policies)) [
      | err e ↦ (not_there e, s)
      | ok p ↦ store_policy now "policy_update" 200 (request_row id rule yaml p.enabled) s
    ]
  ]

  -- the end of deletePolicyHandler and togglePolicyHandler
  unfoldable pub finish_edit :
      ℕ → String → String → Result DbError (List Policy) → Service → Reply PolicyView × Service
  unfolding reload_and_audit
  finish_edit now action id (err e) s = (not_there e, s)
  finish_edit now action id (ok rows) s =
      (no_content, reload_and_audit now action id (with_policies s rows))

  -- the four handlers
  unfoldable pub serve_policy : ℕ → String → PolicyRequest → Service → Reply PolicyView × Service
  unfolding create_policy update_policy finish_edit delete_policy set_enabled
  serve_policy now fresh (create none) s = (invalid_json, s)
  serve_policy now fresh (create (some yaml)) s = create_policy now fresh yaml s
  serve_policy now fresh (update id none) s = (invalid_json, s)
  serve_policy now fresh (update id (some yaml)) s = update_policy now id yaml s
  serve_policy now fresh (delete id) s =
      finish_edit now "policy_delete" id (delete_policy id s.policies) s
  serve_policy now fresh (toggle id none) s = (invalid_json, s)
  serve_policy now fresh (toggle id (some enabled)) s =
      finish_edit now "policy_toggle" id (set_enabled now id enabled s.policies) s
