-- ===== src/K8s/Tests.antt =====
-- The theorems on plans and executions at a concrete cluster.
use kubernetes_agent.Base.{
  ℕ, ◌+◌, ◌-◌, ◌^◌, String, ◌≡◌, refl, ◌⊎◌, true, false, List, [], ◌∷◌, ◌++◌, none, some, Result,
  ok, err, any, All,
}
use kubernetes_agent.Json.{str, arr, obj, nil, cons, Fields, end, field}
use kubernetes_agent.Text.{equal_fold}
use kubernetes_agent.Policy.Rules.{default_rules}
use kubernetes_agent.Policy.Engine.{matches, evaluate}
use kubernetes_agent.K8s.Rebind.{
  nearest, round_from, to_float, shortest_at, print_from, printed_float, reread,
}
use kubernetes_agent.K8s.Op.{Operation}
use kubernetes_agent.K8s.Api.{
  Request, get, create, patch, delete, Api, ApiError, not_found, Trace, ◌>>=◌, wrap, connect_to,
  look, send, pure,
}
use kubernetes_agent.K8s.Summary.{Printer}
use kubernetes_agent.K8s.Plan.{PlanOutput, dry_run, plan_write}
use kubernetes_agent.K8s.Plan.Harmless.{IsHarmless, plan_write-IsHarmless}
use kubernetes_agent.K8s.Plan.Partition.{IsPlan, plan_write_partition}
use kubernetes_agent.K8s.Execute.{World, policy_changed, denies, execute_plan}
use kubernetes_agent.K8s.Execute.Outcome.{Ended, execute_plan_outcome}
use kubernetes_agent.K8s.Execute.Reach.{Adds, Licensed, execute_plan-Licensed}
use kubernetes_agent.K8s.Read.{ListInput}
use kubernetes_agent.K8s.Read.Hints.{diagnose_status}
use kubernetes_agent.K8s.Read.Table.{TableReader, TableOutput, table, build_list_url, list_table}
use kubernetes_agent.K8s.Read.Table.Shape.{IsTable, list_table-IsTable}

abbrev pub no_orbit : ℕ → ℕ
no_orbit c = c

abbrev answer : Request → Result ApiError Fields
answer (get t) = err not_found
answer (create t body dry) = ok body
answer (patch t body dry) = ok body
answer (delete t) = ok end

-- a cluster that has no object and takes every write
abbrev pub empty_cluster : Api
empty_cluster = record {
  connect = λ t id. ok tt;
  resolve = λ id r. record { group = ""; version = "v1"; resource = r };
  name_of = λ m. "web";
  respond = λ t q. answer q;
}

abbrev pub printer : Printer
printer = record { number = λ t. t; value = λ v. "<nil>"; count = λ n. "1" }

abbrev pod : Fields
pod = field "kind" (str "Pod") end

abbrev pub create_pod : String → Operation
create_pod namespace = record {
  action = "apply";
  manifest = some pod;
  resource = "pods";
  name = "";
  namespace = namespace;
  replicas = none;
  kind = "";
  cluster_id = "c";
}

abbrev pub delete_pod : String → Operation
delete_pod namespace = record {
  action = "delete";
  manifest = none;
  resource = "pods";
  name = "web";
  namespace = namespace;
  replicas = none;
  kind = "";
  cluster_id = "c";
}

abbrev two_ops : List Operation
two_ops = create_pod "web" ∷ delete_pod "kube-system" ∷ []

plan_write-IsHarmless_example :
    (extra : Trace) × ((plan_write empty_cluster printer no_orbit default_rules "p" two_ops []).1
      ≡ [] ++ extra)
    × All IsHarmless extra
plan_write-IsHarmless_example =
    plan_write-IsHarmless empty_cluster printer no_orbit default_rules "p" two_ops []

abbrev pub blank : World
blank = record { sent = []; audit = [] }

execute_plan_outcome_example :
    ((any (denies empty_cluster no_orbit default_rules) (create_pod "web" ∷ []) ≡ true)
      × (execute_plan empty_cluster no_orbit default_rules "p" (create_pod "web" ∷ []) blank
          ≡ (err policy_changed, blank)))
    ⊎ ((any (denies empty_cluster no_orbit default_rules) (create_pod "web" ∷ []) ≡ false)
        × Ended empty_cluster "p"
            (create_pod "web" ∷ [])
            blank
            (execute_plan empty_cluster no_orbit default_rules "p" (create_pod "web" ∷ []) blank))
execute_plan_outcome_example =
    execute_plan_outcome empty_cluster no_orbit default_rules "p" (create_pod "web" ∷ []) blank

execute_plan-Licensed_example :
    Adds
      (Licensed empty_cluster no_orbit default_rules (create_pod "web" ∷ []))
      []
      (execute_plan empty_cluster no_orbit default_rules "p" (create_pod "web" ∷ []) blank).1.sent
execute_plan-Licensed_example =
    execute_plan-Licensed empty_cluster no_orbit default_rules "p" (create_pod "web" ∷ []) blank

-- what PlanWrite returns for `two_ops`
abbrev a_plan : PlanOutput
unfolding plan_write ◌>>=◌ evaluate matches equal_fold wrap connect_to dry_run look send pure
a_plan = elim (plan_write empty_cluster printer no_orbit default_rules "p" two_ops []).0 [
  | ok out ↦ out
  | err e ↦ record { plan_id = ""; summary = ""; diffs = []; denied = [] }
]

planned : (plan_write empty_cluster printer no_orbit default_rules "p" two_ops []).0 ≡ ok a_plan
unfolding plan_write ◌>>=◌ evaluate matches equal_fold wrap connect_to dry_run look send pure
planned = refl

plan_write_partition_example :
    IsPlan empty_cluster printer no_orbit default_rules "p" two_ops a_plan
plan_write_partition_example =
    plan_write_partition empty_cluster printer no_orbit default_rules "p" two_ops [] a_plan planned

-- an apiserver whose table has no column for the namespace, and a row that lacks a cell
abbrev pods_table : TableReader
pods_table = record {
  host = λ id. ok "https://c";
  resolve = λ id r. record { group = ""; version = "v1"; resource = r };
  is_namespaced = λ id r. true;
  escape = λ s. s;
  fetch = λ url. table ("Name" ∷ "Ready" ∷ []) (
      record {
        cells = "web" ∷ [];
        object = some (field "metadata" (obj (field "namespace" (str "prod") end)) end);
      }
      ∷ []);
}

abbrev pods : ListInput
pods = record { resource = "pods"; namespace = ""; label_selector = ""; cluster_id = "c" }

abbrev listed_pods : TableOutput
listed_pods = record {
  columns = "Name" ∷ "Ready" ∷ "Namespace" ∷ [];
  rows = ("web" ∷ "" ∷ "prod" ∷ []) ∷ [];
}

list_table-IsTable_example : IsTable true listed_pods
list_table-IsTable_example =
    list_table-IsTable pods_table pods listed_pods (unfold list_table in refl)

list_url :
    build_list_url
      (λ s. s)
      true
      "https://c"
      (record { group = "apps"; version = "v1"; resource = "deployments" })
      "prod"
      "app=web"
    ≡ "https://c/apis/apps/v1/namespaces/prod/deployments?labelSelector=app=web"
unfolding build_list_url
list_url = refl

-- the status of a pod that cannot pull its image
abbrev sick_pod : Fields
sick_pod =
    field "status"
      (obj (
        field "conditions"
          (arr (
            cons
              (obj (
                field "type" (str "Ready")
                  (field "status" (str "False") (field "reason" (str "ContainersNotReady") end))))
              nil))
          (field "containerStatuses"
            (arr (
              cons
                (obj (
                  field "state"
                    (obj (field "waiting" (obj (field "reason" (str "ErrImagePull") end)) end))
                    end))
                nil))
            end)))
      end

sick_pod_hints :
    diagnose_status sick_pod
    ≡ "容器/Pod 未就绪 (ContainersNotReady)" ∷ "镜像拉取失败,检查 image name / imagePullSecrets / 网络" ∷ []
unfolding diagnose_status
sick_pod_hints = refl

-- replicas on their way through a map: as they were, rounded, rounded in print, and not read back
rebound_replicas :
    (reread (record { negative = true; magnitude = 3 })
      ≡ some (record { negative = true; magnitude = 3 }))
    × (reread (record { negative = false; magnitude = 2 ^ 53 + 1 })
        ≡ some (record { negative = false; magnitude = 9007199254740992 }))
    × (reread (record { negative = false; magnitude = 4611686018427387904 })
        ≡ some (record { negative = false; magnitude = 4611686018427388000 }))
    × (reread (record { negative = false; magnitude = 2 ^ 63 - 1 }) ≡ none)
unfolding reread printed_float print_from shortest_at to_float round_from nearest
rebound_replicas = (refl, refl, refl, refl)
