-- ===== src/K8s/Op.antt =====
-- internal/tools/k8s/op.go. The wire form has the same fields, and an integer is printed with all its
-- digits, so unmarshalling what an operation is marshalled to gives it back; K8s.Rebind has the way
-- through a map, which does not.
use kubernetes_agent.Base.{ℕ, String, Bool, Option, none, some, ◌==◌, if◌then◌else◌}
use kubernetes_agent.Json.{Fields, get, as_string}
use kubernetes_agent.Policy.Rules.{OperationInfo}

-- an `int`: its sign and its magnitude, of 64 bits as the decoder checks
pub record Replicas : Type 0 where
  pub negative : Bool
  pub magnitude : ℕ

pub record Operation : Type 0 where
  pub action : String
  pub manifest : Option Fields
  pub resource : String
  pub name : String
  pub namespace : String
  pub replicas : Option Replicas
  pub kind : String
  pub cluster_id : String

abbrev manifest_kind : Option Fields → String
manifest_kind none = ""
manifest_kind (some m) = as_string (get "kind" m)

-- Kind
unfoldable pub kind_of : Operation → String
kind_of o = if o.kind == "" then manifest_kind o.manifest else o.kind

-- the operation as a policy.OperationInfo
abbrev pub info : Operation → OperationInfo
info o = record {
  action = o.action;
  resource = o.resource;
  namespace = o.namespace;
  kind = kind_of o;
  manifest = o.manifest;
}
