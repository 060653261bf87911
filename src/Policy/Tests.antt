-- ===== src/Policy/Tests.antt =====
-- The policy theorems at concrete operations and rules.
use kubernetes_agent.Base.{
  ℕ, zero, suc, String, ◌≡◌, ◌≢◌, refl, ap, ◌⊎◌, inl, inr, ◌↔◌, true, false, List, [], ◌∷◌, none,
  some, Result, ok, err, arith, All, eq_iff, ◌==◌, if◌then◌else◌, Bool-cases, false≢true,
}
use kubernetes_agent.Json.{Json, obj, bool, nil, cons, Fields, end, field}
use kubernetes_agent.Text.{equal_fold}
use kubernetes_agent.Store.Failure.{DbError, encoding}
use kubernetes_agent.Store.Policies.{
  EngineRow, seed_default_policies, list_enabled_policies_for_engine,
}
use kubernetes_agent.Policy.Rules.{
  Rule, OperationInfo, allow, confirm, deny, deny_delete_system_ns, deny_dangerous_kinds,
  deny_privileged, confirm_production, default_rules,
}
use kubernetes_agent.Policy.Engine.{evaluate, unsafe_found, is_write}
use kubernetes_agent.Policy.FirstMatch.{IsDecision, evaluate-IsDecision, evaluate-ne-allow}
use kubernetes_agent.Policy.Defaults.{IsSystemNamespace, evaluate_system_delete}
use kubernetes_agent.Policy.Reload.{Engine, Loaded, reload_policies, reload_policies_atomic}
use kubernetes_agent.Policy.Stored.{RoundTrips, by_name, seed_reload}
use kubernetes_agent.Policy.Wildcard.{workload}

abbrev no_orbit : ℕ → ℕ
no_orbit c = c

abbrev delete_in : String → String → OperationInfo
delete_in namespace resource = record {
  action = "delete";
  resource = resource;
  namespace = namespace;
  kind = "";
  manifest = none;
}

abbrev plain_container : Json
plain_container = bool false

abbrev privileged_container : Json
privileged_container = obj (field "securityContext" (obj (field "privileged" (bool true) end)) end)

abbrev privileged_job : Fields
privileged_job = workload (cons privileged_container nil) end

abbrev apply_prod : OperationInfo
apply_prod = record {
  action = "apply";
  resource = "jobs";
  namespace = "prod";
  kind = "";
  manifest = some privileged_job;
}

ne : (a b : String) → (a == b) ≡ false → a ≢ b
ne a b h e = ground (arith, eq_iff a b)

evaluate-IsDecision_example :
    (evaluate no_orbit (confirm_production ∷ []) (delete_in "prod" "pods") ≡ confirm)
    ↔ IsDecision no_orbit (delete_in "prod" "pods") (confirm_production ∷ []) confirm
evaluate-IsDecision_example =
    evaluate-IsDecision no_orbit (delete_in "prod" "pods") (confirm_production ∷ []) confirm

evaluate-ne-allow_example :
    evaluate no_orbit (confirm_production ∷ []) (delete_in "web" "pods") ≢ allow
unfolding is_write
evaluate-ne-allow_example =
    evaluate-ne-allow no_orbit (delete_in "web" "pods") (confirm_production ∷ [])
      (ne "confirm" "allow" refl, tt) refl

fold_self : IsSystemNamespace no_orbit "Kube-System"
unfolding equal_fold
fold_self = inl refl

evaluate_system_delete_example :
    evaluate no_orbit default_rules (delete_in "Kube-System" "pods") ≡ deny
unfolding equal_fold
evaluate_system_delete_example =
    evaluate_system_delete no_orbit (delete_in "Kube-System" "pods") refl fold_self

web_not_system : ¬ IsSystemNamespace no_orbit "web"
unfolding equal_fold
web_not_system (inl h) = false≢true h
web_not_system (inr (inl h)) = false≢true h
web_not_system (inr (inr h)) = false≢true h

-- a codec for the default rules: their names
abbrev encode_name : Rule → Result DbError String
encode_name r = ok r.name

abbrev decode_name : String → Result DbError Rule
decode_name s =
    if s == "deny-delete-system-ns"
    then ok deny_delete_system_ns
    else if s == "deny-dangerous-kinds"
    then ok deny_dangerous_kinds
    else if s == "deny-privileged"
    then ok deny_privileged
    else if s == "confirm-production"
    then ok confirm_production
    else err (encoding "no such rule")

trips : All (RoundTrips encode_name decode_name) default_rules
trips = (
  record { text = "deny-delete-system-ns"; printed = refl; some_text = refl; read = refl },
  (
    record { text = "deny-dangerous-kinds"; printed = refl; some_text = refl; read = refl },
    (
      record { text = "deny-privileged"; printed = refl; some_text = refl; read = refl },
      (record { text = "confirm-production"; printed = refl; some_text = refl; read = refl }, tt),
    ),
  ),
)

-- ids that differ
abbrev unary : ℕ → String
unary zero = ""
unary (suc n) = String.◌∷◌ "a" (unary n)

unary-injective : (i j : ℕ) → unary i ≡ unary j → i ≡ j
unary-injective zero zero h = refl
unary-injective zero (suc j) h = cc h
unary-injective (suc i) zero h = cc h
unary-injective (suc i) (suc j) h = ap suc (unary-injective i j (cc h))

fresh : (i j : ℕ) → i ≢ j → (unary i == unary j) ≡ false
fresh i j h = elim (Bool-cases (unary i == unary j)) [
  | inl e ↦ elim (h (unary-injective i j ((eq_iff (unary i) (unary j)).0 e))) [ ]
  | inr e ↦ e
]

abbrev empty_engine : Engine
empty_engine = record { rules = [] }

reload_policies_atomic_example :
    let listed : Result DbError (List EngineRow) =
      ok (record { name = "x"; yaml = "deny-privileged" } ∷ []) in
    ((e : DbError) × ((reload_policies decode_name listed empty_engine).0 ≡ err e)
      × ((reload_policies decode_name listed empty_engine).1 ≡ empty_engine))
    ⊎ ((rows : List EngineRow) × (listed ≡ ok rows)
        × ((reload_policies decode_name listed empty_engine).0 ≡ ok tt)
        × Loaded decode_name rows (reload_policies decode_name listed empty_engine).1.rules)
reload_policies_atomic_example =
    reload_policies_atomic decode_name (ok (record { name = "x"; yaml = "deny-privileged" } ∷ []))
      empty_engine

seed_reload_example :
    let seeding = seed_default_policies encode_name unary 5 [] in
    (seeding.1 ≡ ok tt)
    × (reload_policies decode_name (list_enabled_policies_for_engine seeding.0) empty_engine
        ≡ (ok tt, record { rules = by_name }))
seed_reload_example = seed_reload encode_name decode_name unary 5 fresh trips empty_engine

unsafe_job : unsafe_found deny_privileged.match.unsafe_fields privileged_job ≡ true
unfolding unsafe_found
unsafe_job = refl
