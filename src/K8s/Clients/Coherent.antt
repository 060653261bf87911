-- ===== src/K8s/Clients/Coherent.antt =====
-- Each cached entry is what would be made anew from the table.
use kubernetes_agent.Base.{
  String, false, List, [], ◌∷◌, ◌++◌, some, Result, ok, err, ◌≡◌, refl, sym, ap, subst, ◌∙◌, inl,
  inr, All, arith, Bool-cases, Option-cases, Result-cases, ◌==◌, eq_iff,
}
use kubernetes_agent.Crypto.{Gcm}
use kubernetes_agent.Store.Clusters.{Cluster, get_cluster, without_cluster}
use kubernetes_agent.Store.Clusters.Rows.{get_cluster-append, get_cluster-without_cluster}
use kubernetes_agent.K8s.Resolver.{find_key}
use kubernetes_agent.K8s.Clients.{
  ClientGo, ClusterClients, Cache, ClientError, build, cached, clients, invalidate_clients,
}

module _ (go : ClientGo) (gcm : Gcm) where
  abbrev pub IsCoherent : List Cluster → Cache go → Type 0
  IsCoherent rows cache = All (λ e. build go gcm e.0 rows ≡ ok e.1) cache

  find_key-IsCoherent :
      (id : String) (rows : List Cluster) (cache : Cache go) (c : ClusterClients go)
      → IsCoherent rows cache
      → find_key id cache ≡ some c
      → build go gcm id rows ≡ ok c
  unfolding find_key
  find_key-IsCoherent id rows [] c h f = cc
  find_key-IsCoherent id rows ((j, d) ∷ cache) c h f = elim (Bool-cases (j == id)) [
    | inl e ↦
        let same : d ≡ c = ground (arith, e, f) in
        let j_id : j ≡ id = (eq_iff j id).0 e in
        subst (λ k. build go gcm k rows ≡ ok c) j_id (h.0 ∙ ap ok same)
    | inr e ↦
        let f' : find_key id cache ≡ some c = ground (arith, e, f) in
        find_key-IsCoherent id rows cache c h.1 f'
  ]

  cached-IsCoherent :
      (id : String) (rows : List Cluster) (cache : Cache go)
      (r : Result ClientError (ClusterClients go))
      → build go gcm id rows ≡ r
      → IsCoherent rows cache
      → ((cached go id r cache).0 ≡ r) × IsCoherent rows (cached go id r cache).1
  cached-IsCoherent id rows cache (err e) b h = (refl, h)
  cached-IsCoherent id rows cache (ok c) b h = (refl, (b, h))

  -- a call answers as if it made the clients anew
  pub clients-build :
      (id : String) (rows : List Cluster) (cache : Cache go)
      → IsCoherent rows cache
      → ((clients go gcm id rows cache).0 ≡ build go gcm id rows)
        × IsCoherent rows (clients go gcm id rows cache).1
  unfolding clients
  clients-build id rows cache h = elim (Option-cases (find_key id cache)) [
    | inl miss ↦ rw miss (cached-IsCoherent id rows cache (build go gcm id rows) refl h)
    | inr (c, hit) ↦ rw hit (sym (find_key-IsCoherent id rows cache c h hit), h)
  ]

  build-append :
      (id : String) (rows more : List Cluster) (c : ClusterClients go)
      → build go gcm id rows ≡ ok c
      → build go gcm id (rows ++ more) ≡ ok c
  unfolding build
  build-append id rows more c h = elim (Result-cases (get_cluster id rows)) [
    | inl (e, g) ↦ let h' : err _ ≡ ok c = rw g at h in cc h'
    | inr (row, g) ↦ rw (get_cluster-append id rows more row g) (rw g at h)
  ]

  pub append-IsCoherent :
      (rows more : List Cluster) (cache : Cache go)
      → IsCoherent rows cache
      → IsCoherent (rows ++ more) cache
  append-IsCoherent rows more [] h = tt
  append-IsCoherent rows more ((j, c) ∷ cache) h =
      (build-append j rows more c h.0, append-IsCoherent rows more cache h.1)

  build-without_cluster :
      (id other : String) (rows : List Cluster)
      → (id == other) ≡ false
      → build go gcm other (without_cluster id rows) ≡ build go gcm other rows
  unfolding build
  build-without_cluster id other rows h = rw (get_cluster-without_cluster id other rows h)

  pub invalidate_clients-IsCoherent :
      (id : String) (rows : List Cluster) (cache : Cache go)
      → IsCoherent rows cache
      → IsCoherent rows (invalidate_clients go id cache)
  unfolding invalidate_clients
  invalidate_clients-IsCoherent id rows [] h = tt
  invalidate_clients-IsCoherent id rows ((j, c) ∷ cache) h =
      let ih = invalidate_clients-IsCoherent id rows cache h.1 in
      elim (Bool-cases (j == id)) [ inl e ↦ rw e ih | inr e ↦ rw e (h.0, ih) ]

  -- a deletion that drops the entry of its cluster
  pub without_cluster-IsCoherent :
      (id : String) (rows : List Cluster) (cache : Cache go)
      → IsCoherent rows cache
      → IsCoherent (without_cluster id rows) (invalidate_clients go id cache)
  unfolding invalidate_clients
  without_cluster-IsCoherent id rows [] h = tt
  without_cluster-IsCoherent id rows ((j, c) ∷ cache) h =
      let ih = without_cluster-IsCoherent id rows cache h.1 in
      elim (Bool-cases (j == id)) [
        | inl e ↦ rw e ih
        | inr e ↦
            let other : (id == j) ≡ false = ground (arith, e, eq_iff j id, eq_iff id j) in
            rw e (build-without_cluster id j rows other ∙ h.0, ih)
      ]
