-- ===== src/K8s/Read/Table.antt =====
-- ListTable and buildListURL of internal/tools/k8s/list.go.
pub mod Shape
use kubernetes_agent.Base.{
  ℕ, zero, suc, String, Bool, true, false, List, [], ◌∷◌, Option, none, some, Result, ok, err, any,
  length, nat_eq, ◌==◌, ◌||◌, if◌then◌else◌,
}
use mathlib.Core.List
use Prim.Native.String.{◌++◌}
use kubernetes_agent.Json.{Fields, get, as_string, as_map}
use kubernetes_agent.K8s.Api.{Gvr}
use kubernetes_agent.K8s.Read.{ListInput}

-- a row of metav1.Table: its cells as %v prints them, and its object where it is a JSON object
pub record TableRow : Type 0 where
  pub cells : List String
  pub object : Option Fields

-- what the apiserver answers, as far as it is read
pub data TableReply : Type 0 where
  unreachable : String → TableReply
  status : ℕ → String → TableReply
  no_table : String → TableReply
  table : List String → List TableRow → TableReply

-- `panics` is an index out of range
pub data TableError : Type 0 where
  no_config : String → TableError
  list_failed : String → String → TableError
  http_error : String → ℕ → String → TableError
  decode_failed : String → TableError
  panics : TableError

pub record TableOutput : Type 0 where
  pub columns : List String
  pub rows : List (List String)

-- the factory and its resolver, url.QueryEscape, and a GET that asks for a table
pub record TableReader : Type 0 where
  pub host : String → Result String String
  pub resolve : String → String → Gvr
  pub is_namespaced : String → String → Bool
  pub escape : String → String
  pub fetch : String → TableReply

abbrev pub with_selector : (String → String) → String → String → String
with_selector escape selector base =
    if selector == "" then base else base ++ ("?labelSelector=" ++ escape selector)

-- the root of a group and version
abbrev pub api_root : String → Gvr → String
api_root host gvr =
    if gvr.group == ""
    then host ++ ("/api/" ++ gvr.version)
    else host ++ ("/apis/" ++ (gvr.group ++ ("/" ++ gvr.version)))

-- buildListURL
unfoldable pub build_list_url : (String → String) → Bool → String → Gvr → String → String → String
build_list_url escape namespaced host gvr namespace selector =
    if (if namespaced then false else true) || namespace == ""
    then with_selector escape selector (api_root host gvr ++ ("/" ++ gvr.resource))
    else with_selector escape selector
        (api_root host gvr ++ ("/namespaces/" ++ (namespace ++ ("/" ++ gvr.resource))))

-- extractNamespace
abbrev pub namespace_in : Option Fields → String
unfolding get
namespace_in none = ""
namespace_in (some metadata) = as_string (get "namespace" metadata)

abbrev pub extract_namespace : Option Fields → String
unfolding namespace_in get
extract_namespace none = ""
extract_namespace (some m) = namespace_in (as_map (get "metadata" m))

-- `cells` for a number of columns: those that the row lacks are empty, and one too many panics
abbrev pub cons_cell : String → Option (List String) → Option (List String)
cons_cell c none = none
cons_cell c (some cs) = some (c ∷ cs)

unfoldable pub fill_cells : ℕ → List String → Option (List String)
fill_cells zero [] = some []
fill_cells zero (c ∷ cs) = none
fill_cells (suc n) [] = cons_cell "" (fill_cells n [])
fill_cells (suc n) (c ∷ cs) = cons_cell c (fill_cells n cs)

abbrev pub is_namespace_column : String → Bool
is_namespace_column c = c == "Namespace"

abbrev pub with_namespace : Bool → TableRow → List String → List String
unfolding extract_namespace
with_namespace inject r cells =
    if inject then List.◌++◌ cells (extract_namespace r.object ∷ []) else cells

abbrev pub cons_row : List String → Option (List (List String)) → Option (List (List String))
cons_row cells none = none
cons_row cells (some rows) = some (cells ∷ rows)

-- the loop over the rows; `none` where it panics
unfoldable pub fill_rows : ℕ → Bool → List TableRow → Option (List (List String))
unfolding fill_cells with_namespace
fill_rows n inject [] = some []
fill_rows n inject (r ∷ rows) = elim (fill_cells n r.cells) [
  | none ↦ none
  | some cells ↦ cons_row (with_namespace inject r cells) (fill_rows n inject rows)
]

-- the columns, and the one that is added
abbrev pub with_column : Bool → List String → List String
with_column inject columns = if inject then List.◌++◌ columns ("Namespace" ∷ []) else columns

abbrev pub injects : Bool → List String → Bool
injects namespaced columns = if any is_namespace_column columns then false else namespaced

abbrev pub out_of : List String → Option (List (List String)) → Result TableError TableOutput
out_of columns none = err panics
out_of columns (some rows) = ok (record { columns = columns; rows = rows })

-- the end of ListTable, once the table is decoded
unfoldable pub finish_table : Bool → List String → List TableRow → Result TableError TableOutput
unfolding fill_rows
finish_table namespaced columns rows =
    let inject = injects namespaced columns in
    out_of (with_column inject columns) (fill_rows (length columns) inject rows)

abbrev pub read_reply : String → Bool → TableReply → Result TableError TableOutput
unfolding finish_table
read_reply resource namespaced (unreachable e) = err (list_failed resource e)
read_reply resource namespaced (status n body) = err (http_error resource n body)
read_reply resource namespaced (no_table e) = err (decode_failed e)
read_reply resource namespaced (table columns rows) = finish_table namespaced columns rows

-- ListTable
unfoldable pub list_table : TableReader → ListInput → Result TableError TableOutput
unfolding build_list_url read_reply
list_table reader i = elim (reader.host i.cluster_id) [
  | err e ↦ err (no_config e)
  | ok host ↦
      let namespaced = reader.is_namespaced i.cluster_id i.resource in
      let gvr = reader.resolve i.cluster_id i.resource in
      read_reply i.resource namespaced (
        reader.fetch
          (build_list_url reader.escape namespaced host gvr i.namespace i.label_selector))
]
