-- ===== src/Policy/Rules.antt =====
-- internal/policy/rule.go, op.go and default.go.
use kubernetes_agent.Base.{String, List, [], ◌∷◌, Option, true}
use kubernetes_agent.Json.{Json, Fields, bool}

-- `type Effect string`: a rule's YAML may hold any text here
abbrev pub Effect : Type 0
Effect = String

abbrev pub allow : Effect
allow = "allow"

abbrev pub confirm : Effect
confirm = "confirm"

abbrev pub deny : Effect
deny = "deny"

-- `unsafe_fields` is the map from a path to the value that is unsafe there
pub record Match : Type 0 where
  pub action : List String
  pub namespace : List String
  pub kind : List String
  pub unsafe_fields : List (String × Json)

pub record Rule : Type 0 where
  pub name : String
  pub effect : Effect
  pub match : Match

-- the interface OperationInfo; a nil manifest is `none`
pub record OperationInfo : Type 0 where
  pub action : String
  pub resource : String
  pub namespace : String
  pub kind : String
  pub manifest : Option Fields

abbrev pub deny_delete_system_ns : Rule
deny_delete_system_ns = record {
  name = "deny-delete-system-ns";
  effect = deny;
  match = record {
    action = "delete" ∷ [];
    namespace = "kube-system" ∷ "kube-public" ∷ "kube-node-lease" ∷ [];
    kind = [];
    unsafe_fields = [];
  };
}

abbrev pub deny_dangerous_kinds : Rule
deny_dangerous_kinds = record {
  name = "deny-dangerous-kinds";
  effect = deny;
  match = record {
    action = "apply" ∷ "delete" ∷ [];
    namespace = [];
    kind = "Node" ∷ "ClusterRole" ∷ "ClusterRoleBinding" ∷ "CustomResourceDefinition" ∷ [];
    unsafe_fields = [];
  };
}

abbrev pub deny_privileged : Rule
deny_privileged = record {
  name = "deny-privileged";
  effect = deny;
  match = record {
    action = "apply" ∷ [];
    namespace = [];
    kind = [];
    unsafe_fields =
        ("spec.template.spec.containers[*].securityContext.privileged", bool true)
        ∷ ("spec.template.spec.hostNetwork", bool true)
        ∷ ("spec.template.spec.hostPID", bool true)
        ∷ [];
  };
}

abbrev pub confirm_production : Rule
confirm_production = record {
  name = "confirm-production";
  effect = confirm;
  match = record {
    action = "apply" ∷ "delete" ∷ "scale" ∷ [];
    namespace = "production" ∷ "prod" ∷ [];
    kind = [];
    unsafe_fields = [];
  };
}

-- DefaultRules
abbrev pub default_rules : List Rule
default_rules =
    deny_delete_system_ns ∷ deny_dangerous_kinds ∷ deny_privileged ∷ confirm_production ∷ []
