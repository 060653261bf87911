-- ===== src/Store/Clusters/Rows.antt =====
-- What GetCluster reads after the statements of the table.
use kubernetes_agent.Base.{
  String, false, List, [], ◌∷◌, ◌++◌, ◌≡◌, refl, ok, any, arith, Bool-cases, inl, inr, ◌==◌, eq_iff,
  eq_refl,
}
use kubernetes_agent.Store.Clusters.{Cluster, clashes, scanned, get_cluster, without_cluster}

-- a row that was there is read as before
pub get_cluster-append :
    (id : String) (rows more : List Cluster) (c : Cluster)
    → get_cluster id rows ≡ ok c
    → get_cluster id (rows ++ more) ≡ ok c
unfolding get_cluster
get_cluster-append id [] more c h = cc
get_cluster-append id (x ∷ rows) more c h = elim (Bool-cases (x.id == id)) [
  | inl e ↦ ground (arith, e, h)
  | inr e ↦ ground (arith, e, h, get_cluster-append id rows more c)
]

-- a new row is read back
pub get_cluster-append_self :
    (rows : List Cluster) (c : Cluster)
    → any (clashes c) rows ≡ false
    → get_cluster c.id (rows ++ c ∷ []) ≡ ok (scanned c)
unfolding get_cluster
get_cluster-append_self [] c h = rw (eq_refl c.id)
get_cluster-append_self (x ∷ rows) c h = elim (Bool-cases (x.id == c.id)) [
  | inl e ↦ ground (arith, e, h)
  | inr e ↦ ground (arith, e, h, get_cluster-append_self rows c)
]

-- a deletion leaves the others
pub get_cluster-without_cluster :
    (id other : String) (rows : List Cluster)
    → (id == other) ≡ false
    → get_cluster other (without_cluster id rows) ≡ get_cluster other rows
unfolding get_cluster without_cluster
get_cluster-without_cluster id other [] h = refl
get_cluster-without_cluster id other (c ∷ rows) h = ground (
  arith,
  h,
  eq_iff c.id id,
  eq_iff c.id other,
  eq_iff id other,
  get_cluster-without_cluster id other rows,
)
