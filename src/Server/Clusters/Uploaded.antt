-- ===== src/Server/Clusters/Uploaded.antt =====
-- From an upload of a kubeconfig to the clients made from it.
use kubernetes_agent.Base.{
  ℕ, String, [], ◌∷◌, ◌++◌, Option, some, ◌≡◌, refl, sym, ap, subst, ◌∙◌, inl, inr, any, length,
  arith, Bool-cases, Option-cases, ◌==◌,
}
use kubernetes_agent.Crypto.{Bytes, Gcm, IsGcm, nonce_size, encrypt, decrypt-encrypt}
use kubernetes_agent.Store.Clusters.{Cluster, clashes}
use kubernetes_agent.Store.Clusters.Rows.{get_cluster-append_self}
use kubernetes_agent.K8s.Clients.{ClientGo, with_config, build, clients}
use kubernetes_agent.K8s.Clients.Coherent.{clients-build}
use kubernetes_agent.Server.Response.{Reply, view}
use kubernetes_agent.Server.Clusters.{
  KubeConfig, ClusterView, CreateClusterRequest, is_empty, first_server_and_user, cluster_row,
  ClusterService, store_cluster, encrypt_cluster, create_cluster_handler,
}
use kubernetes_agent.Server.Clusters.Coherent.{
  Coherent, stamped, store_cluster-stored, store_cluster-clashes, create_cluster_handler-Coherent,
}

module _ (go : ClientGo) (gcm : Gcm) (load : Bytes → Option KubeConfig) where
  store_cluster-uploaded :
      (nonce plain : Bytes) (now status : ℕ) (row : Cluster) (v : ClusterView)
      (s s' : ClusterService go)
      → IsGcm gcm
      → length nonce ≡ nonce_size
      → row.kubeconfig_blob ≡ nonce ++ gcm.seal nonce plain
      → store_cluster go now row s ≡ (view status v, s')
      → build go gcm row.id s'.clusters ≡ with_config go (go.rest_config plain)
  unfolding build
  store_cluster-uploaded nonce plain now status row v s s' g n blob h =
      elim (Bool-cases (any (clashes row) s.clusters)) [
        | inl e ↦ cc (store_cluster-clashes go gcm now row s e)
        | inr e ↦
            let stored : s.clusters ++ stamped go gcm now row ∷ [] ≡ s'.clusters =
              ap (λ (p : Reply ClusterView × ClusterService go). p.1.clusters)
                (sym (store_cluster-stored go gcm now row s e) ∙ h) in
            let read = get_cluster-append_self s.clusters (stamped go gcm now row) e in
            rw (← stored, read, blob, decrypt-encrypt gcm nonce plain g n)
      ]

  encrypt_cluster-uploaded :
      (nonce : Bytes) (now status : ℕ) (id : String) (r : CreateClusterRequest) (cfg : KubeConfig)
      (v : ClusterView) (s s' : ClusterService go)
      → IsGcm gcm
      → length nonce ≡ nonce_size
      → encrypt_cluster go gcm (some nonce) now id r cfg s ≡ (view status v, s')
      → build go gcm id s'.clusters ≡ with_config go (go.rest_config r.kubeconfig)
  unfolding encrypt_cluster encrypt
  encrypt_cluster-uploaded nonce now status id r cfg v s s' g n h =
      store_cluster-uploaded nonce r.kubeconfig now status
        (cluster_row id r.name (first_server_and_user cfg) (nonce ++ gcm.seal nonce r.kubeconfig)) v
        s s' g n refl h

  create_cluster_handler-accepted :
      (random : Option Bytes) (now status : ℕ) (id : String) (r : CreateClusterRequest)
      (v : ClusterView) (s s' : ClusterService go)
      → create_cluster_handler go load gcm random now id (some r) s ≡ (view status v, s')
      → (cfg : KubeConfig) × (encrypt_cluster go gcm random now id r cfg s ≡ (view status v, s'))
  unfolding create_cluster_handler
  create_cluster_handler-accepted random now status id r v s s' h =
      elim (Bool-cases (r.name == "")) [
        | inl e ↦ ground (arith, e, h)
        | inr e ↦ elim (Bool-cases (is_empty r.kubeconfig)) [
          | inl g ↦ ground (arith, e, g, h)
          | inr g ↦ elim (Option-cases (load r.kubeconfig)) [
            | inl k ↦ ground (arith, e, g, k, h)
            | inr (cfg, k) ↦ (cfg, ground (arith, e, g, k, h))
          ]
        ]
      ]

  -- After an upload that was answered by a cluster, the factory gives, for that cluster, the clients of
  -- the REST config that client-go reads from the uploaded kubeconfig, or its error: what was
  -- encrypted for the table decrypts, if AES-GCM opens what it sealed.
  pub create_cluster_handler-clients :
      (nonce : Bytes) (now status : ℕ) (id : String) (r : CreateClusterRequest) (v : ClusterView)
      (s s' : ClusterService go)
      → IsGcm gcm
      → length nonce ≡ nonce_size
      → Coherent go gcm s
      → create_cluster_handler go load gcm (some nonce) now id (some r) s ≡ (view status v, s')
      → (clients go gcm id s'.clusters s'.cache).0 ≡ with_config go (go.rest_config r.kubeconfig)
  create_cluster_handler-clients nonce now status id r v s s' g n coherent h =
      let (cfg, h') = create_cluster_handler-accepted (some nonce) now status id r v s s' h in
      let after : Coherent go gcm s' =
        subst (λ (p : Reply ClusterView × ClusterService go). Coherent go gcm p.1) h
          (create_cluster_handler-Coherent go gcm load (some nonce) now id (some r) s coherent) in
      (clients-build go gcm id s'.clusters s'.cache after).0
      ∙ encrypt_cluster-uploaded nonce now status id r cfg v s s' g n h'
