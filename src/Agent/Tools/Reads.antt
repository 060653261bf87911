-- ===== src/Agent/Tools/Reads.antt =====
-- The handlers k8s_get, k8s_list and k8s_describe of internal/agent/tools.go. An input that is not JSON
-- is `none`.
pub mod Scoped
mod Tests
use kubernetes_agent.Base.{
  String, Bool, true, false, List, Option, none, some, Result, ok, err, ◌==◌, ◌||◌, if◌then◌else◌,
}
use kubernetes_agent.Json.{Fields}
use kubernetes_agent.K8s.Read.{
  Reader, ReadError, ObjectInput, ListInput, DescribeOutput, get_resource, describe,
}
use kubernetes_agent.K8s.Read.Table.{TableReader, TableError, TableOutput, list_table}
use kubernetes_agent.Agent.Session.{Session}

pub data ReadToolError : Type 0 where
  invalid_input missing_field no_cluster : ReadToolError
  read_failed : ReadError → ReadToolError
  table_failed : TableError → ReadToolError

-- the input for the session's cluster, after the checks
unfoldable pub bound_object : Session → Option ObjectInput → Result ReadToolError ObjectInput
bound_object s none = err invalid_input
bound_object s (some i) =
    if i.resource == "" || i.name == ""
    then err missing_field
    else if s.cluster_id == ""
    then err no_cluster
    else ok (record i { cluster_id = s.cluster_id })

unfoldable pub bound_list : Session → Option ListInput → Result ReadToolError ListInput
bound_list s none = err invalid_input
bound_list s (some i) =
    if i.resource == ""
    then err missing_field
    else if s.cluster_id == ""
    then err no_cluster
    else ok (record i { cluster_id = s.cluster_id })

abbrev pub answered {ℓ} : {A : Type ℓ} → Result ReadError A → Result ReadToolError A
answered (err e) = err (read_failed e)
answered (ok a) = ok a

-- the read of an input that passed the checks
abbrev pub read_bound {ℓ} :
    {A : Type ℓ}
    → Result ReadToolError ObjectInput
    → (ObjectInput → Result ReadError A)
    → Result ReadToolError A
read_bound (err e) read = err e
read_bound (ok i) read = answered (read i)

abbrev pub tabled : Result TableError TableOutput → Result ReadToolError TableOutput
tabled (err e) = err (table_failed e)
tabled (ok a) = ok a

-- k8s_get
unfoldable pub get_tool : Reader → Session → Option ObjectInput → Result ReadToolError Fields
unfolding bound_object get_resource
get_tool reader s input = read_bound (bound_object s input) (get_resource reader)

-- k8s_list
unfoldable pub list_tool :
    TableReader → Session → Option ListInput → Result ReadToolError TableOutput
unfolding bound_list list_table
list_tool reader s input = elim (bound_list s input) [
  | err e ↦ err e
  | ok i ↦ tabled (list_table reader i)
]

-- k8s_describe
unfoldable pub describe_tool :
    Reader → Session → Option ObjectInput → Result ReadToolError DescribeOutput
unfolding bound_object describe
describe_tool reader s input = read_bound (bound_object s input) (describe reader)
