-- ===== src/Server/Clusters/Coherent.antt =====
-- The cache of the client factory over the handlers of the clusters.
use kubernetes_agent.Base.{
  ℕ, String, true, false, List, [], ◌∷◌, ◌++◌, Option, none, some, ◌≡◌, inl, inr, any, arith,
  Bool-cases, Option-cases, ◌==◌,
}
use kubernetes_agent.Crypto.{Bytes, Gcm, encrypt}
use kubernetes_agent.Store.Failure.{not_found}
use kubernetes_agent.Store.Messages.{SessionRow}
use kubernetes_agent.Store.Clusters.{
  Cluster, clashes, is_cluster, create_cluster, without_cluster, delete_cluster, unbind,
}
use kubernetes_agent.K8s.Clients.{ClientGo, build, clients, invalidate_clients}
use kubernetes_agent.K8s.Clients.Coherent.{
  IsCoherent, clients-build, append-IsCoherent, invalidate_clients-IsCoherent,
  without_cluster-IsCoherent,
}
use kubernetes_agent.Server.Response.{view, no_content, internal}
use kubernetes_agent.Server.Clusters.{
  KubeConfig, to_cluster_view, CreateClusterRequest, is_empty, ClusterService, store_cluster,
  encrypt_cluster, create_cluster_handler, not_there, delete_cluster_handler,
}

module _ (go : ClientGo) (gcm : Gcm) where
  abbrev pub Coherent : ClusterService go → Type 0
  Coherent s = IsCoherent go gcm s.clusters s.cache

  abbrev pub stamped : ℕ → Cluster → Cluster
  stamped now row = record row { created_at = now; updated_at = now }

  -- a created row, and the other branch
  pub store_cluster-stored :
      (now : ℕ) (row : Cluster) (s : ClusterService go)
      → any (clashes row) s.clusters ≡ false
      → store_cluster go now row s ≡ (
        view 201 (to_cluster_view row),
        record s {
          clusters = s.clusters ++ stamped now row ∷ [];
          cache = invalidate_clients go row.id s.cache;
        },
      )
  unfolding store_cluster create_cluster
  store_cluster-stored now row s h = ground (arith, h)

  pub store_cluster-clashes :
      (now : ℕ) (row : Cluster) (s : ClusterService go)
      → any (clashes row) s.clusters ≡ true
      → store_cluster go now row s ≡ (internal, s)
  unfolding store_cluster create_cluster
  store_cluster-clashes now row s h = ground (arith, h)

  store_cluster-Coherent :
      (now : ℕ) (row : Cluster) (s : ClusterService go)
      → Coherent s
      → Coherent (store_cluster go now row s).1
  store_cluster-Coherent now row s h = elim (Bool-cases (any (clashes row) s.clusters)) [
    | inl e ↦ rw (store_cluster-clashes now row s e) h
    | inr e ↦ rw (store_cluster-stored now row s e) (
        append-IsCoherent go gcm s.clusters (stamped now row ∷ [])
          (invalidate_clients go row.id s.cache)
          (invalidate_clients-IsCoherent go gcm row.id s.clusters s.cache h))
  ]

  encrypt_cluster-Coherent :
      (random : Option Bytes) (now : ℕ) (id : String) (r : CreateClusterRequest) (cfg : KubeConfig)
      (s : ClusterService go)
      → Coherent s
      → Coherent (encrypt_cluster go gcm random now id r cfg s).1
  unfolding encrypt_cluster encrypt
  encrypt_cluster-Coherent none now id r cfg s h = h
  encrypt_cluster-Coherent (some nonce) now id r cfg s h = store_cluster-Coherent now _ s h

  delete_cluster_handler-deleted :
      (id : String) (s : ClusterService go)
      → any (is_cluster id) s.clusters ≡ true
      → delete_cluster_handler go id s ≡ (
        no_content,
        record {
          clusters = without_cluster id s.clusters;
          sessions = unbind id s.sessions;
          cache = invalidate_clients go id s.cache;
        },
      )
  unfolding delete_cluster_handler delete_cluster
  delete_cluster_handler-deleted id s h = ground (arith, h)

  delete_cluster_handler-absent :
      (id : String) (s : ClusterService go)
      → any (is_cluster id) s.clusters ≡ false
      → delete_cluster_handler go id s ≡ (not_there go not_found, s)
  unfolding delete_cluster_handler delete_cluster
  delete_cluster_handler-absent id s h = ground (arith, h)

  delete_cluster_handler-Coherent :
      (id : String) (s : ClusterService go)
      → Coherent s
      → Coherent (delete_cluster_handler go id s).1
  delete_cluster_handler-Coherent id s h = elim (Bool-cases (any (is_cluster id) s.clusters)) [
    | inl e ↦
        rw (delete_cluster_handler-deleted id s e)
          (without_cluster-IsCoherent go gcm id s.clusters s.cache h)
    | inr e ↦ rw (delete_cluster_handler-absent id s e) h
  ]

  module _ (load : Bytes → Option KubeConfig) where
    pub create_cluster_handler-Coherent :
        (random : Option Bytes) (now : ℕ) (id : String) (r : Option CreateClusterRequest)
        (s : ClusterService go)
        → Coherent s
        → Coherent (create_cluster_handler go load gcm random now id r s).1
    unfolding create_cluster_handler
    create_cluster_handler-Coherent random now id none s h = h
    create_cluster_handler-Coherent random now id (some r) s h = elim (Bool-cases (r.name == "")) [
      | inl e ↦ rw e h
      | inr e ↦ elim (Bool-cases (is_empty r.kubeconfig)) [
        | inl g ↦ rw (e, g) h
        | inr g ↦ elim (Option-cases (load r.kubeconfig)) [
          | inl k ↦ rw (e, g, k) h
          | inr (cfg, k) ↦ rw (e, g, k) (encrypt_cluster-Coherent random now id r cfg s h)
        ]
      ]
    ]

    -- the states that the handlers and the tools' calls of `clients` lead to, from an empty cache
    pub data Reach : ClusterService go → Type 0 where
      start :
          (clusters : List Cluster) (sessions : List SessionRow)
          → Reach (record { clusters = clusters; sessions = sessions; cache = [] })
      created :
          {s : ClusterService go} (random : Option Bytes) (now : ℕ) (id : String)
          (r : Option CreateClusterRequest)
          → Reach s
          → Reach (create_cluster_handler go load gcm random now id r s).1
      deleted :
          {s : ClusterService go} (id : String) → Reach s → Reach (delete_cluster_handler go id s).1
      used :
          {s : ClusterService go} (id : String)
          → Reach s
          → Reach (record s { cache = (clients go gcm id s.clusters s.cache).1 })

    Reach-Coherent : {s : ClusterService go} → Reach s → Coherent s
    Reach-Coherent (start clusters sessions) = tt
    Reach-Coherent (created random now id r reach) =
        create_cluster_handler-Coherent random now id r _ (Reach-Coherent reach)
    Reach-Coherent (deleted id reach) = delete_cluster_handler-Coherent id _ (Reach-Coherent reach)
    Reach-Coherent (used {s} id reach) =
        (clients-build go gcm id s.clusters s.cache (Reach-Coherent reach)).1

    -- Whatever clusters were created, deleted and used since the start, the factory answers a cluster as
    -- if it had no cache: by the clients made from the row that the table has now, or by the error of
    -- making them.
    pub clients-Reach :
        (s : ClusterService go) (id : String)
        → Reach s
        → (clients go gcm id s.clusters s.cache).0 ≡ build go gcm id s.clusters
    clients-Reach s id reach = (clients-build go gcm id s.clusters s.cache (Reach-Coherent reach)).0
