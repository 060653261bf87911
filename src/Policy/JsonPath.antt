-- ===== src/Policy/JsonPath.antt =====
-- internal/policy/jsonpath.go: `None` is Go's second result `false`.
use kubernetes_agent.Base.{String, List, [], ◌∷◌, Option, none, some, if◌then◌else◌}
use kubernetes_agent.Json.{Json, obj, arr, cons, Fields, get, as_map}
use kubernetes_agent.Text.{split, has_suffix, trim_suffix}

-- the first element of `v.([]any)`
abbrev pub first_item : Option Json → Option Json
first_item (some (arr (cons x xs))) = some x
first_item _ = none

abbrev pub lookup_in : String → Option Fields → Option Json
lookup_in key none = none
lookup_in key (some m) = get key m

-- one part of the path
unfoldable pub step : String → Json → Option Json
unfolding has_suffix trim_suffix get
step p cur =
    if has_suffix p "[*]"
    then first_item (lookup_in (trim_suffix p "[*]") (as_map (some cur)))
    else lookup_in p (as_map (some cur))

unfoldable pub walk : List String → Json → Option Json
walk [] cur = some cur
walk (p ∷ parts) cur = elim (step p cur) [ none ↦ none | some next ↦ walk parts next ]

-- JSONPathGet
unfoldable pub json_path_get : Fields → String → Option Json
unfolding walk step split
json_path_get m path = walk (split b'.' path) (obj m)
