-- ===== src/Json/Values.antt =====
-- `any` as encoding/json and yaml.v3 fill it. A number is kept as the text that json.Marshal
-- prints for it. A map is a list of bindings in which the first one of a key counts; Go's maps
-- have no order, and nothing reads the order here but through `get` and `marshal`.
use kubernetes_agent.Base.{String, Bool, Option, none, some, ◌==◌, if◌then◌else◌}

mutual
  pub data Json : Type 0 where
    null : Json
    bool : Bool → Json
    num : String → Json
    str : String → Json
    arr : Items → Json
    obj : Fields → Json

  pub data Items : Type 0 where
    nil : Items
    cons : Json → Items → Items

  pub data Fields : Type 0 where
    end : Fields
    field : String → Json → Fields → Fields

-- `m[key]`
unfoldable pub get : String → Fields → Option Json
get key end = none
get key (field k v fs) = if k == key then some v else get key fs

-- `m[key] = v`
unfoldable pub put : String → Json → Fields → Fields
put key v fs = field key v fs

-- `v.(string)` with its zero value where the assertion fails
abbrev pub as_string : Option Json → String
as_string (some (str s)) = s
as_string _ = ""

-- `v.(map[string]any)`
abbrev pub as_map : Option Json → Option Fields
as_map (some (obj fs)) = some fs
as_map _ = none

-- `v.(bool)` with its zero value
abbrev pub as_bool : Option Json → Bool
as_bool (some (bool b)) = b
as_bool _ = Bool.false
