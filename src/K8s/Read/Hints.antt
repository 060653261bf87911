-- ===== src/K8s/Read/Hints.antt =====
-- diagnoseStatus of internal/tools/k8s/describe.go.
use kubernetes_agent.Base.{String, List, [], ◌∷◌, Option, none, some, ◌==◌, ◌||◌, if◌then◌else◌}
use mathlib.Core.List
use Prim.Native.String.{◌++◌}
use kubernetes_agent.Json.{Json, arr, Items, nil, cons, Fields, end, get, as_string, as_map}

-- `v.([]any)`, nil where the assertion fails
abbrev pub as_items : Option Json → Items
as_items (some (arr vs)) = vs
as_items _ = nil

-- a map, where reading a key of nil gives nothing
abbrev pub or_nil : Option Fields → Fields
or_nil none = end
or_nil (some m) = m

abbrev pub not_ready : String → String
not_ready reason = "容器/Pod 未就绪 (" ++ (reason ++ ")")

abbrev pub not_scheduled : String
not_scheduled = "Pod 长时间未调度,检查节点资源/亲和性/污点"

-- the hint of one condition
unfoldable pub condition_hint : Fields → List String
unfolding get
condition_hint m =
    let kind = as_string (get "type" m) in
    if as_string (get "status" m) == "False"
    then (if kind == "Ready"
        then not_ready (as_string (get "reason" m)) ∷ []
        else if kind == "PodScheduled"
        then not_scheduled ∷ []
        else [])
    else []

-- the hint of a waiting container's reason
unfoldable pub waiting_hint : String → List String
waiting_hint reason =
    if reason == "ImagePullBackOff" || reason == "ErrImagePull"
    then "镜像拉取失败,检查 image name / imagePullSecrets / 网络" ∷ []
    else if reason == "CrashLoopBackOff"
    then "容器反复崩溃,查看最近一次重启的 logs" ∷ []
    else if reason == "Pending"
    then "容器等待调度/镜像就绪" ∷ []
    else []

abbrev pub waiting_of : Option Fields → List String
unfolding waiting_hint get
waiting_of none = []
waiting_of (some w) = waiting_hint (as_string (get "reason" w))

-- the hint of one container status
unfoldable pub container_hint : Fields → List String
unfolding waiting_of get
container_hint m = waiting_of (as_map (get "waiting" (or_nil (as_map (get "state" m)))))

abbrev pub hint_of : (Fields → List String) → Option Fields → List String
hint_of hint none = []
hint_of hint (some m) = hint m

-- a loop over a list, which passes over what is not a map
unfoldable pub hints_of : (Fields → List String) → Items → List String
hints_of hint nil = []
hints_of hint (cons v vs) = List.◌++◌ (hint_of hint (as_map (some v))) (hints_of hint vs)

-- diagnoseStatus
unfoldable pub diagnose_status : Fields → List String
unfolding hints_of condition_hint container_hint get
diagnose_status content =
    let status = or_nil (as_map (get "status" content)) in
    List.◌++◌ (hints_of condition_hint (as_items (get "conditions" status)))
      (hints_of container_hint (as_items (get "containerStatuses" status)))
