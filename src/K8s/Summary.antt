-- ===== src/K8s/Summary.antt =====
-- The plan's texts, of internal/tools/k8s/plan_write.go.
use Prim.Native.String.{◌++◌}
use mathlib.Core.List
use kubernetes_agent.Base.{
  ℕ, String, Bool, true, false, not, List, [], ◌∷◌, Option, none, some, ◌==◌, length, ltb, nat_eq,
  if◌then◌else◌,
}
use kubernetes_agent.Json.{Json, arr, num, cons, Fields, get, as_string, as_map}
use kubernetes_agent.Policy.Rules.{Effect, allow, confirm}
use kubernetes_agent.K8s.Op.{Operation}

-- a nil map is `none`
pub record Diff : Type 0 where
  pub action : String
  pub resource : String
  pub name : String
  pub namespace : String
  pub before : Option Fields
  pub after : Option Fields
  pub risk : String
  pub summary : String

pub record DeniedOp : Type 0 where
  pub operation : Operation
  pub reason : String

-- riskFrom
unfoldable pub risk_from : Effect → String
risk_from eff = if eff == allow then "low" else if eff == confirm then "high" else "low"

-- fmt: `number` prints an int64 by %d and a float64 by %.0f, `value` prints any value by %v, and
-- `count` an int by %d
pub record Printer : Type 0 where
  pub number : String → String
  pub value : Option Json → String
  pub count : ℕ → String

abbrev pub field_of : String → Option Fields → Option Json
field_of key none = none
field_of key (some m) = get key m

-- getManifestKind
unfoldable pub get_manifest_kind : Option Fields → Option Fields → String
get_manifest_kind after before =
    let first = as_string (field_of "kind" after) in
    let second = as_string (field_of "kind" before) in
    if not (first == "") then first else if not (second == "") then second else "Unknown"

abbrev print_number : Printer → Option Json → String
print_number p (some (num t)) = p.number t
print_number p _ = "?"

-- extractReplicas
unfoldable pub extract_replicas : Printer → Option Fields → String
extract_replicas p m = print_number p (field_of "replicas" (as_map (field_of "spec" m)))

abbrev first_container : Option Json → Option Fields
first_container (some (arr (cons c cs))) = as_map (some c)
first_container _ = none

-- getNested
unfoldable pub get_nested : Option Fields → String → Option Json
get_nested m key =
    let spec = as_map (field_of "spec" m) in
    if key == "image"
    then field_of key (first_container (field_of "containers" spec))
    else if key == "imagePullPolicy"
    then field_of key (first_container (field_of "containers" spec))
    else if key == "ports"
    then field_of key (first_container (field_of "containers" spec))
    else field_of key spec

-- a `map[string]string`
abbrev pub Labels : Type 0
Labels = List (String × String)

-- getNestedLabels: the assertion to `map[string]string` holds of no value that JSON decodes to
unfoldable pub get_nested_labels : Option Fields → Labels
get_nested_labels m = []

label : String → Labels → String
label key [] = ""
label key ((k, v) ∷ rest) = if k == key then v else label key rest

labels_differ : Labels → Labels → Bool
unfolding label
labels_differ [] b = false
labels_differ ((k, v) ∷ rest) b =
    let more = labels_differ rest b in if not (label k b == v) then true else more

-- labelMapsEqual, with the results as they stand in the code
unfoldable pub label_maps_equal : Labels → Labels → Bool
unfolding labels_differ
label_maps_equal a b = if not (nat_eq (length a) (length b)) then false else labels_differ a b

abbrev join : String → List String → String
join sep [] = ""
join sep (x ∷ []) = x
join sep (x ∷ y ∷ rest) = x ++ (sep ++ join sep (y ∷ rest))

changed_fields : Printer → Option Fields → Option Fields → List String → List String
unfolding get_nested
changed_fields p before after [] = []
changed_fields p before after (key ∷ keys) =
    let rest = changed_fields p before after keys in
    let bv = p.value (get_nested before key) in
    let av = p.value (get_nested after key) in
    if bv == av then rest else (key ++ (": " ++ (bv ++ (" → " ++ av)))) ∷ rest

labels_changed : Option Fields → Option Fields → List String
unfolding get_nested_labels label_maps_equal
labels_changed before after =
    if label_maps_equal (get_nested_labels before) (get_nested_labels after)
    then []
    else "labels changed" ∷ []

abbrev show_changes : List String → String
show_changes [] = ""
show_changes (a ∷ []) = a
show_changes (a ∷ b ∷ []) = a ++ (", " ++ b)
show_changes (a ∷ b ∷ c ∷ rest) = a ++ (", " ++ (b ++ "…"))

-- diffChanges
unfoldable pub diff_changes : Printer → Option Fields → Option Fields → String
unfolding changed_fields labels_changed
diff_changes p before after = show_changes (
    List.◌++◌
      (changed_fields p before after
        ("replicas" ∷ "image" ∷ "imagePullPolicy" ∷ "ports" ∷ "serviceType" ∷ []))
      (labels_changed before after))

abbrev object_text : String → Diff → String
object_text verb d =
    verb
    ++ (" "
        ++ (get_manifest_kind d.after d.before
            ++ (" "
                ++ ((if d.namespace == "" then "default" else d.namespace)
                    ++ ("/" ++ (if d.name == "" then "(unnamed)" else d.name))))))

abbrev updated : Printer → Diff → Option Fields → String
updated p d none = object_text "创建" d
updated p d (some before) =
    let changes = diff_changes p (some before) d.after in
    if changes == ""
    then object_text "更新" d ++ " (无变更)"
    else object_text "更新" d ++ (": " ++ changes)

-- summarizeOne
unfoldable pub summarize_one : Printer → Diff → String
unfolding get_manifest_kind extract_replicas diff_changes
summarize_one p d =
    if d.action == "delete"
    then object_text "删除" d
    else if d.action == "scale"
    then object_text "调整" d
      ++ (" replicas: " ++ (extract_replicas p d.before ++ (" → " ++ extract_replicas p d.after)))
    else updated p d d.before

abbrev summaries : Printer → List Diff → List String
summaries p [] = []
summaries p (d ∷ ds) = summarize_one p d ∷ summaries p ds

-- summarize
unfoldable pub summarize : Printer → List Diff → List DeniedOp → String
unfolding summarize_one
summarize p diffs denied =
    let rejected : List String =
      if ltb 0 (length denied)
      then ("全部 " ++ (p.count (length denied) ++ " 个被 policy 拒绝")) ∷ []
      else [] in
    elim (List.◌++◌ (summaries p diffs) rejected) [ [] ↦ "无操作" | x ∷ rest ↦ join "; " (x ∷ rest) ]
