-- ===== src/Agent/Tools/Reads/Tests.antt =====
-- The read tools at concrete readers.
use kubernetes_agent.Base.{
  Bool, true, false, [], some, ok, err, ◌≡◌, refl, arith, ◌==◌, eq_iff, if◌then◌else◌,
}
use kubernetes_agent.Json.{Fields, end, obj, field, str}
use kubernetes_agent.K8s.Api.{Target, not_found}
use kubernetes_agent.K8s.Read.{Reader, ObjectInput}
use kubernetes_agent.Agent.Session.{Session, new_session}
use kubernetes_agent.Agent.Tools.Reads.{get_tool, describe_tool}
use kubernetes_agent.Agent.Tools.Reads.Scoped.{read_tools_scoped}

abbrev bound : Session
bound = record (new_session "s") { cluster_id = "c" }

abbrev web_pod : Fields
web_pod = field "metadata" (obj (field "name" (str "web") end)) end

-- readers of a cluster "c" that has a pod, and of others, which have none or all
abbrev reader : Bool → Reader
reader others = record {
  connect = λ id. ok tt;
  resolve = λ id r. record { group = ""; version = "v1"; resource = r };
  get_object =
      λ t. if t.cluster == "c" then ok web_pod else if others then ok end else err not_found;
  list_objects = λ r. ok [];
  uid_of = λ m. "u";
}

agree_on_c :
    (t : Target) → t.cluster ≡ "c" → (reader true).get_object t ≡ (reader false).get_object t
agree_on_c t h =
    let same : (t.cluster == "c") ≡ true = (eq_iff t.cluster "c").1 h in ground (arith, same)

abbrev web_input : ObjectInput
web_input = record { resource = "pods"; name = "web"; namespace = ""; cluster_id = "other" }

read_tools_scoped_example :
    (get_tool (reader true) bound (some web_input) ≡ get_tool (reader false) bound (some web_input))
    × (describe_tool (reader true) bound (some web_input)
        ≡ describe_tool (reader false) bound (some web_input))
read_tools_scoped_example =
    read_tools_scoped (reader true) (reader false) bound (some web_input) (record {
      connects = refl;
      resolves = λ r. refl;
      gets = λ t h. agree_on_c t h;
      lists = λ r h. refl;
      uids = λ m. refl;
    })
