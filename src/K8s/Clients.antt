-- ===== src/K8s/Clients.antt =====
-- KubeconfigClientFactory of internal/tools/k8s/client.go. The mutex makes each call one step.
pub mod Coherent
use kubernetes_agent.Base.{
  String, Bool, true, List, [], ◌∷◌, Option, none, some, Result, ok, err, ◌==◌, if◌then◌else◌,
}
use kubernetes_agent.Crypto.{Bytes, CryptoError, Gcm, decrypt}
use kubernetes_agent.Store.Failure.{DbError}
use kubernetes_agent.Store.Clusters.{Cluster, get_cluster}
use kubernetes_agent.K8s.Resolver.{Resolver, new_resolver, find_key}

-- why `clients` has none
pub data ClientError : Type 0 where
  cluster_error : DbError → ClientError
  decrypt_error : CryptoError → ClientError
  bad_kubeconfig : ClientError
  no_client : ClientError

-- client-go: a REST config from a kubeconfig, and a dynamic client from a REST config. A discovery
-- client that cannot be made is a nil pointer in a non-nil interface, so the resolver of a new entry
-- always has one.
pub record ClientGo : Type 1 where
  pub Config : Type 0
  pub Dynamic : Type 0
  pub rest_config : Bytes → Option Config
  pub new_dynamic : Config → Option Dynamic

module _ (go : ClientGo) where
  open go use {Config, Dynamic, rest_config, new_dynamic}

  -- clusterClients; the resolver as it is when it is made
  pub record ClusterClients : Type 0 where
    pub dynamic : Dynamic
    pub resolver : Resolver
    pub config : Config

  -- the cache, its newest entry first
  abbrev pub Cache : Type 0
  Cache = List (String × ClusterClients)

  abbrev pub with_dynamic : Config → Option Dynamic → Result ClientError ClusterClients
  with_dynamic c none = err no_client
  with_dynamic c (some d) = ok (record { dynamic = d; resolver = new_resolver true; config = c })

  abbrev pub with_config : Option Config → Result ClientError ClusterClients
  with_config none = err bad_kubeconfig
  with_config (some c) = with_dynamic c (new_dynamic c)

  abbrev pub with_plain : Result CryptoError Bytes → Result ClientError ClusterClients
  with_plain (err e) = err (decrypt_error e)
  with_plain (ok plain) = with_config (rest_config plain)

  abbrev pub with_row : Gcm → Result DbError Cluster → Result ClientError ClusterClients
  with_row gcm (err e) = err (cluster_error e)
  with_row gcm (ok row) = with_plain (decrypt gcm row.kubeconfig_blob)

  -- what `clients` makes where the cache has no entry
  unfoldable pub build : Gcm → String → List Cluster → Result ClientError ClusterClients
  unfolding get_cluster decrypt
  build gcm id rows = with_row gcm (get_cluster id rows)

  abbrev pub cached :
      String → Result ClientError ClusterClients → Cache → Result ClientError ClusterClients × Cache
  cached id (err e) cache = (err e, cache)
  cached id (ok c) cache = (ok c, (id, c) ∷ cache)

  abbrev pub hit_or :
      Option ClusterClients
      → Result ClientError ClusterClients × Cache
      → Cache
      → Result ClientError ClusterClients × Cache
  hit_or none made cache = made
  hit_or (some c) made cache = (ok c, cache)

  -- clients
  unfoldable pub clients :
      Gcm → String → List Cluster → Cache → Result ClientError ClusterClients × Cache
  unfolding build find_key
  clients gcm id rows cache = hit_or (find_key id cache) (cached id (build gcm id rows) cache) cache

  abbrev pub dynamic_of : Result ClientError ClusterClients → Result ClientError Dynamic
  dynamic_of (err e) = err e
  dynamic_of (ok c) = ok c.dynamic

  abbrev pub config_of : Result ClientError ClusterClients → Result ClientError Config
  config_of (err e) = err e
  config_of (ok c) = ok c.config

  abbrev pub resolver_of : Result ClientError ClusterClients → Resolver
  resolver_of (err e) = new_resolver Bool.false
  resolver_of (ok c) = c.resolver

  -- Get
  unfoldable pub get_client :
      Gcm → String → List Cluster → Cache → Result ClientError Dynamic × Cache
  unfolding clients
  get_client gcm id rows cache = let r = clients gcm id rows cache in (dynamic_of r.0, r.1)

  -- RESTConfig
  unfoldable pub get_config :
      Gcm → String → List Cluster → Cache → Result ClientError Config × Cache
  unfolding clients
  get_config gcm id rows cache = let r = clients gcm id rows cache in (config_of r.0, r.1)

  -- Resolver
  unfoldable pub get_resolver : Gcm → String → List Cluster → Cache → Resolver × Cache
  unfolding clients
  get_resolver gcm id rows cache = let r = clients gcm id rows cache in (resolver_of r.0, r.1)

  -- delete(f.cache, clusterID)
  unfoldable pub invalidate_clients : String → Cache → Cache
  invalidate_clients id [] = []
  invalidate_clients id ((j, c) ∷ cache) =
      let rest = invalidate_clients id cache in if j == id then rest else (j, c) ∷ rest
