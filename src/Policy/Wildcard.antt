-- ===== src/Policy/Wildcard.antt =====
-- The path wildcard of JSONPathGet, as the default rules meet it.
use kubernetes_agent.Base.{ℕ, ◌≡◌, refl, some}
use kubernetes_agent.Json.{Json, obj, arr, Items, cons, Fields, end, field}
use kubernetes_agent.Policy.Rules.{OperationInfo, deny_privileged, default_rules}
use kubernetes_agent.Policy.Engine.{unsafe_found, matches, evaluate}

-- `spec.template.spec` with the given containers and further fields
abbrev pub workload : Items → Fields → Fields
workload containers rest =
    field "spec"
      (obj (
        field "template" (obj (field "spec" (obj (field "containers" (arr containers) rest)) end))
          end))
      end

abbrev pub with_manifest : OperationInfo → Fields → OperationInfo
with_manifest op m = record op { manifest = some m }

unsafe_found_first :
    (x : Json) (xs ys : Items) (rest : Fields)
    → unsafe_found deny_privileged.match.unsafe_fields (workload (cons x xs) rest)
      ≡ unsafe_found deny_privileged.match.unsafe_fields (workload (cons x ys) rest)
unfolding unsafe_found
unsafe_found_first x xs ys rest = refl

module _ (orbit : ℕ → ℕ) where
  -- The default rules look at the first container only: for any two workloads that agree in their
  -- first container and their other fields, the answer is the same, also where a later container
  -- of one of them is privileged.
  pub evaluate_first_container :
      (op : OperationInfo) (x : Json) (xs ys : Items) (rest : Fields)
      → evaluate orbit default_rules (with_manifest op (workload (cons x xs) rest))
        ≡ evaluate orbit default_rules (with_manifest op (workload (cons x ys) rest))
  unfolding evaluate matches
  evaluate_first_container op x xs ys rest = rw (unsafe_found_first x xs ys rest)
