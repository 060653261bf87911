-- ===== src/K8s/Read/Table/Shape.antt =====
-- The shape of a table that is returned.
use kubernetes_agent.Base.{
  ℕ, zero, suc, ◌+◌, String, Bool, true, false, List, [], ◌∷◌, some, ok, any, any-append, length,
  length-append, All, ◌≡◌, ap, ◌∙◌, inl, inr, Bool-cases, Option-cases, Result-cases, if◌then◌else◌,
  arith,
}
use kubernetes_agent.K8s.Read.{ListInput}
use kubernetes_agent.K8s.Read.Table.{
  TableRow, TableReply, unreachable, status, no_table, table, TableOutput, TableReader,
  build_list_url, fill_cells, with_namespace, fill_rows, with_column, injects, is_namespace_column,
  finish_table, read_reply, list_table, extract_namespace,
}

length-fill_cells :
    (n : ℕ) (cells out : List String) → fill_cells n cells ≡ some out → length out ≡ n
unfolding fill_cells
length-fill_cells zero [] out h = ground (arith, h)
length-fill_cells zero (c ∷ cells) out h = cc
length-fill_cells (suc n) [] out h = elim (Option-cases (fill_cells n [])) [
  | inl e ↦ ground (arith, e, h)
  | inr (more, e) ↦
      let same : "" ∷ more ≡ out = ground (arith, e, h) in
      rw (← same) (ap suc (length-fill_cells n [] more e))
]
length-fill_cells (suc n) (c ∷ cells) out h = elim (Option-cases (fill_cells n cells)) [
  | inl e ↦ ground (arith, e, h)
  | inr (more, e) ↦
      let same : c ∷ more ≡ out = ground (arith, e, h) in
      rw (← same) (ap suc (length-fill_cells n cells more e))
]

-- a column more where one is added
abbrev extra : Bool → ℕ
extra inject = if inject then 1 else 0

length-with_namespace :
    (inject : Bool) (r : TableRow) (cells : List String)
    → length (with_namespace inject r cells) ≡ length cells + extra inject
unfolding with_namespace
length-with_namespace true r cells = length-append cells (extract_namespace r.object ∷ [])
length-with_namespace false r cells = omega arith

length-with_column :
    (inject : Bool) (columns : List String)
    → length (with_column inject columns) ≡ length columns + extra inject
length-with_column true columns = length-append columns ("Namespace" ∷ [])
length-with_column false columns = omega arith

abbrev pub IsOfLength : ℕ → List String → Type 0
IsOfLength n cells = length cells ≡ n

All-fill_rows :
    (n : ℕ) (inject : Bool) (rows : List TableRow) (out : List (List String))
    → fill_rows n inject rows ≡ some out
    → All (IsOfLength (n + extra inject)) out
unfolding fill_rows
All-fill_rows n inject [] out h = let same : [] ≡ out = ground (arith, h) in rw (← same) tt
All-fill_rows n inject (r ∷ rows) out h = elim (Option-cases (fill_cells n r.cells)) [
  | inl e ↦ ground (arith, e, h)
  | inr (cells, e) ↦ elim (Option-cases (fill_rows n inject rows)) [
    | inl g ↦ ground (arith, e, g, h)
    | inr (more, g) ↦
        let same : with_namespace inject r cells ∷ more ≡ out = ground (arith, e, g, h) in
        let first : length (with_namespace inject r cells) ≡ n + extra inject =
          length-with_namespace inject r cells
          ∙ ap (λ k. k + extra inject) (length-fill_cells n r.cells cells e) in
        rw (← same) (first, All-fill_rows n inject rows more g)
  ]
]

has_column :
    (namespaced : Bool) (columns : List String)
    → namespaced ≡ true
    → any is_namespace_column (with_column (injects namespaced columns) columns) ≡ true
has_column namespaced columns h = elim (Bool-cases (any is_namespace_column columns)) [
  | inl e ↦ rw (e, e)
  | inr e ↦ rw (e, h) (any-append is_namespace_column columns ("Namespace" ∷ []) ∙ rw e)
]

-- each row has as many cells as there are columns, and a namespaced resource has a column for its
-- namespace
pub record IsTable (namespaced : Bool) (out : TableOutput) : Type 0 where
  pub rectangular : All (IsOfLength (length out.columns)) out.rows
  pub placed : namespaced ≡ true → any is_namespace_column out.columns ≡ true

finish_table-IsTable :
    (namespaced : Bool) (columns : List String) (rows : List TableRow) (out : TableOutput)
    → finish_table namespaced columns rows ≡ ok out
    → IsTable namespaced out
unfolding finish_table
finish_table-IsTable namespaced columns rows out h =
    let inject = injects namespaced columns in
    elim (Option-cases (fill_rows (length columns) inject rows)) [
      | inl e ↦ ground (arith, e, h)
      | inr (filled, e) ↦
          let o : TableOutput = record { columns = with_column inject columns; rows = filled } in
          let same : o ≡ out = ground (arith, e, h) in
          let wide : length (with_column inject columns) ≡ length columns + extra inject =
            length-with_column inject columns in
          rw (← same) (record {
            rectangular = rw wide (All-fill_rows (length columns) inject rows filled e);
            placed = has_column namespaced columns;
          })
    ]

-- A table that ListTable returns has in each row as many cells as it has columns, and it has a column
-- Namespace if the resolver takes the resource for namespaced, also where the apiserver sent none.
pub list_table-IsTable :
    (reader : TableReader) (i : ListInput) (out : TableOutput)
    → list_table reader i ≡ ok out
    → IsTable (reader.is_namespaced i.cluster_id i.resource) out
unfolding list_table
list_table-IsTable reader i out h = elim (Result-cases (reader.host i.cluster_id)) [
  | inl (e, g) ↦ ground (arith, g, h)
  | inr (host, g) ↦ read (reader.fetch (url host)) (ground (arith, g, h))
]
  where
    namespaced : Bool
    namespaced = reader.is_namespaced i.cluster_id i.resource

    url : String → String
    url host =
        build_list_url reader.escape namespaced host (reader.resolve i.cluster_id i.resource)
          i.namespace i.label_selector

    read :
        (reply : TableReply)
        → read_reply i.resource namespaced reply ≡ ok out
        → IsTable namespaced out
    read (unreachable e) k = cc
    read (status n body) k = cc
    read (no_table e) k = cc
    read (table columns rows) k = finish_table-IsTable namespaced columns rows out k
