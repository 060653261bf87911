-- ===== src/Store/Clusters.antt =====
-- internal/store/clusters.go, with the sessions that a deletion unbinds.
pub mod Rows
use kubernetes_agent.Base.{
  ℕ, String, Bool, true, false, List, [], ◌∷◌, ◌++◌, Option, none, some, Result, ok, err, any, map,
  leb, ◌==◌, ◌||◌, if◌then◌else◌,
}
use kubernetes_agent.Crypto.{Bytes}
use kubernetes_agent.Store.Failure.{DbError, not_found, constraint}
use kubernetes_agent.Store.Messages.{SessionRow}

pub record Cluster : Type 0 where
  pub id : String
  pub name : String
  pub server : String
  pub user : String
  pub kubeconfig_blob : Bytes
  pub created_at : ℕ
  pub updated_at : ℕ

-- the two UNIQUE columns
abbrev pub clashes : Cluster → Cluster → Bool
clashes c row = (row.id == c.id) || (row.name == c.name)

-- CreateCluster
unfoldable pub create_cluster : ℕ → Cluster → List Cluster → Result DbError (List Cluster)
create_cluster now c rows =
    if any (clashes c) rows
    then err constraint
    else ok (rows ++ record c { created_at = now; updated_at = now } ∷ [])

-- both time columns are read into one variable, so the later one wins
abbrev pub scanned : Cluster → Cluster
scanned c = record c { created_at = c.updated_at }

-- GetCluster
unfoldable pub get_cluster : String → List Cluster → Result DbError Cluster
get_cluster id [] = err not_found
get_cluster id (c ∷ rows) =
    let rest = get_cluster id rows in if c.id == id then ok (scanned c) else rest

-- ORDER BY created_at
unfoldable pub insert_by_age : Cluster → List Cluster → List Cluster
insert_by_age c [] = c ∷ []
insert_by_age c (x ∷ rows) =
    let rest = insert_by_age c rows in
    if leb c.created_at x.created_at then c ∷ x ∷ rows else x ∷ rest

unfoldable pub by_age : List Cluster → List Cluster
unfolding insert_by_age
by_age [] = []
by_age (c ∷ rows) = insert_by_age c (by_age rows)

-- ListClusters
unfoldable pub list_clusters : List Cluster → List Cluster
unfolding by_age
list_clusters rows = map scanned (by_age rows)

unfoldable pub without_cluster : String → List Cluster → List Cluster
without_cluster id [] = []
without_cluster id (c ∷ rows) =
    let rest = without_cluster id rows in if c.id == id then rest else c ∷ rest

abbrev pub is_cluster : String → Cluster → Bool
is_cluster id c = c.id == id

-- DeleteCluster on its own table
unfoldable pub delete_cluster : String → List Cluster → Result DbError (List Cluster)
unfolding without_cluster
delete_cluster id rows =
    if any (is_cluster id) rows then ok (without_cluster id rows) else err not_found

abbrev pub bound_to : String → Option String → Bool
bound_to id none = false
bound_to id (some c) = c == id

-- ON DELETE SET NULL of sessions.cluster_id
unfoldable pub unbind : String → List SessionRow → List SessionRow
unbind id [] = []
unbind id (s ∷ rows) =
    let rest = unbind id rows in
    if bound_to id s.cluster_id then record s { cluster_id = none } ∷ rest else s ∷ rest
