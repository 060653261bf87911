-- ===== src/Server/Clusters.antt =====
-- internal/server/handler_clusters.go, with the client factory that its handlers invalidate.
pub mod Coherent
pub mod Uploaded
use kubernetes_agent.Base.{
  ℕ, String, Bool, false, List, [], ◌∷◌, Option, none, some, Result, ok, err, map, ◌==◌,
  if◌then◌else◌,
}
use kubernetes_agent.Crypto.{Bytes, CryptoError, Gcm, encrypt}
use kubernetes_agent.Store.Failure.{DbError, not_found}
use kubernetes_agent.Store.Messages.{SessionRow}
use kubernetes_agent.Store.Clusters.{Cluster, create_cluster, delete_cluster, list_clusters, unbind}
use kubernetes_agent.K8s.Resolver.{find_key}
use kubernetes_agent.K8s.Clients.{ClientGo, Cache, invalidate_clients}
use kubernetes_agent.Server.Response.{
  Reply, view, no_content, failure, invalid_json, internal, invalid,
}

-- the fields of clientcmd's Config that are read; its maps in the order in which they are ranged over
pub record KubeContext : Type 0 where
  pub cluster : String
  pub auth_info : String

pub record KubeConfig : Type 0 where
  pub current_context : String
  pub contexts : List (String × KubeContext)
  pub servers : List (String × String)
  pub users : List String

pub record ClusterView : Type 0 where
  pub id : String
  pub name : String
  pub server : String
  pub user : String
  pub created_at : ℕ
  pub updated_at : ℕ

abbrev pub to_cluster_view : Cluster → ClusterView
to_cluster_view c = record {
  id = c.id;
  name = c.name;
  server = c.server;
  user = c.user;
  created_at = c.created_at;
  updated_at = c.updated_at;
}

pub record CreateClusterRequest : Type 0 where
  pub name : String
  pub kubeconfig : Bytes

abbrev pub is_empty {ℓ} : {A : Type ℓ} → List A → Bool
is_empty [] = Bool.true
is_empty (x ∷ xs) = false

unfoldable pub has_user : String → List String → Bool
has_user u [] = false
has_user u (v ∷ vs) = let rest = has_user u vs in if v == u then Bool.true else rest

abbrev pub any_server : List (String × String) → String × String
any_server [] = ("", "")
any_server ((k, server) ∷ rest) = (server, "")

abbrev pub server_in : KubeConfig → KubeContext → Option String → String × String
server_in cfg c none = any_server cfg.servers
server_in cfg c (some server) = (server, if has_user c.auth_info cfg.users then c.auth_info else "")

abbrev pub context_in : KubeConfig → Option KubeContext → String × String
context_in cfg none = any_server cfg.servers
context_in cfg (some c) = server_in cfg c (find_key c.cluster cfg.servers)

-- firstServerAndUser
unfoldable pub first_server_and_user : KubeConfig → String × String
unfolding find_key has_user
first_server_and_user cfg =
    if cfg.current_context == ""
    then any_server cfg.servers
    else context_in cfg (find_key cfg.current_context cfg.contexts)

-- the row of a request; its times are Go's zero time, here 0
abbrev pub cluster_row : String → String → String × String → Bytes → Cluster
cluster_row id name (server, user) blob = record {
  id = id;
  name = name;
  server = server;
  user = user;
  kubeconfig_blob = blob;
  created_at = 0;
  updated_at = 0;
}

module _ (go : ClientGo) where
  pub record ClusterService : Type 0 where
    pub clusters : List Cluster
    pub sessions : List SessionRow
    pub cache : Cache go

  -- listClustersHandler
  unfoldable pub list_handler : ClusterService → Reply (List ClusterView)
  unfolding list_clusters
  list_handler s = view 200 (map to_cluster_view (list_clusters s.clusters))

  -- from CreateCluster on
  unfoldable pub store_cluster : ℕ → Cluster → ClusterService → Reply ClusterView × ClusterService
  unfolding create_cluster invalidate_clients
  store_cluster now row s = elim (create_cluster now row s.clusters) [
    | err e ↦ (internal, s)
    | ok rows ↦ (
      view 201 (to_cluster_view row),
      record s { clusters = rows; cache = invalidate_clients go row.id s.cache },
    )
  ]

  -- from Encrypt on
  unfoldable pub encrypt_cluster :
      Gcm
      → Option Bytes
      → ℕ
      → String
      → CreateClusterRequest
      → KubeConfig
      → ClusterService
      → Reply ClusterView × ClusterService
  unfolding store_cluster encrypt first_server_and_user
  encrypt_cluster gcm random now id r cfg s = elim (encrypt gcm random r.kubeconfig) [
    | err e ↦ (internal, s)
    | ok blob ↦ store_cluster now (cluster_row id r.name (first_server_and_user cfg) blob) s
  ]

  -- createClusterHandler; `load` is clientcmd.Load, `id` uuid.NewString's, `random` the nonce
  unfoldable pub create_cluster_handler :
      (Bytes → Option KubeConfig)
      → Gcm
      → Option Bytes
      → ℕ
      → String
      → Option CreateClusterRequest
      → ClusterService
      → Reply ClusterView × ClusterService
  unfolding encrypt_cluster
  create_cluster_handler load gcm random now id none s = (invalid_json, s)
  create_cluster_handler load gcm random now id (some r) s =
      if r.name == ""
      then (invalid, s)
      else if is_empty r.kubeconfig
      then (invalid, s)
      else elim (load r.kubeconfig) [
        | none ↦ (failure 400 "invalid_kubeconfig" false, s)
        | some cfg ↦ encrypt_cluster gcm random now id r cfg s
      ]

  abbrev pub not_there : DbError → Reply ClusterView
  not_there not_found = failure 404 "not_found" false
  not_there e = internal

  -- deleteClusterHandler
  unfoldable pub delete_cluster_handler :
      String → ClusterService → Reply ClusterView × ClusterService
  unfolding delete_cluster unbind invalidate_clients
  delete_cluster_handler id s = elim (delete_cluster id s.clusters) [
    | err e ↦ (not_there e, s)
    | ok rows ↦ (
      no_content,
      record {
        clusters = rows;
        sessions = unbind id s.sessions;
        cache = invalidate_clients go id s.cache;
      },
    )
  ]
