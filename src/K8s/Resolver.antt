-- ===== src/K8s/Resolver.antt =====
-- internal/tools/k8s/resolver.go and wellknown.go. A Go map is a list of its entries, the newest
-- first; the mutex makes each call one step.
pub mod Entries
pub mod InForce
mod Tests
use kubernetes_agent.Base.{
  ℕ, String, Bool, true, false, List, [], ◌∷◌, Option, none, some, nat_eq, code, ◌==◌, ◌||◌, ◌&&◌,
  if◌then◌else◌,
}

pub record GroupVersion : Type 0 where
  pub group : String
  pub version : String

pub record GroupVersionResource : Type 0 where
  pub group : String
  pub version : String
  pub resource : String

-- what discovery lists: `name` may be that of a subresource, such as pods/status
pub record ApiResource : Type 0 where
  pub name : String
  pub namespaced : Bool

pub record ApiResourceList : Type 0 where
  pub group_version : String
  pub resources : List ApiResource

-- the answer of ServerPreferredResources: the groups, `none` for nil, and whether there was an error
pub record Discovered : Type 0 where
  pub groups : Option (List ApiResourceList)
  pub failed : Bool

-- WellKnownGV
abbrev pub core : GroupVersion
core = record { group = ""; version = "v1" }

abbrev pub apps : GroupVersion
apps = record { group = "apps"; version = "v1" }

unfoldable pub well_known_gv : List (String × GroupVersion)
well_known_gv =
    ("pods", core)
    ∷ ("events", core)
    ∷ ("deployments", apps)
    ∷ ("nodes", core)
    ∷ ("namespaces", core)
    ∷ ("services", core)
    ∷ ("configmaps", core)
    ∷ ("secrets", core)
    ∷ ("replicasets", apps)
    ∷ ("statefulsets", apps)
    ∷ ("daemonsets", apps)
    ∷ []

unfoldable pub find_key {ℓ} : {V : Type ℓ} → String → List (String × V) → Option V
find_key k [] = none
find_key k ((j, v) ∷ m) = let rest = find_key k m in if j == k then some v else rest

abbrev pub with_gv : String → Option GroupVersion → GroupVersionResource
with_gv resource none = record { group = ""; version = ""; resource = resource }
with_gv resource (some gv) = record { group = gv.group; version = gv.version; resource = resource }

-- wellKnownFallback
unfoldable pub well_known_fallback : String → GroupVersionResource
unfolding find_key well_known_gv
well_known_fallback resource = with_gv resource (find_key resource well_known_gv)

-- resolveGVR
unfoldable pub resolve_gvr : GroupVersionResource → GroupVersionResource
unfolding find_key well_known_gv
resolve_gvr g =
    if g.group == "" && g.version == ""
    then with_gv g.resource (find_key g.resource well_known_gv)
    else g

-- wellKnownNamespacedFallback
unfoldable pub well_known_namespaced_fallback : String → Bool
well_known_namespaced_fallback resource =
    if (resource == "nodes")
      || (resource == "namespaces")
      || (resource == "persistentvolumes")
      || (resource == "storageclasses")
      || (resource == "componentstatuses")
      || (resource == "events")
    then false
    else true

-- containsSlash
unfoldable pub contains_slash : String → Bool
contains_slash String.[] = false
contains_slash (String.◌∷◌ c s) = nat_eq (code c) b'/' || contains_slash s

abbrev pub is_skipped : ApiResource → Bool
is_skipped r = (r.name == "") || contains_slash r.name

-- the two maps that a discovery fills
pub record Maps : Type 0 where
  pub cache : List (String × GroupVersionResource)
  pub namespaced : List (String × Bool)

abbrev pub no_maps : Maps
no_maps = record { cache = []; namespaced = [] }

pub record Resolver : Type 0 where
  pub has_discovery : Bool
  pub maps : Maps
  pub loaded : Bool

abbrev pub put_resource : GroupVersion → ApiResource → Maps → Maps
put_resource gv r m = record {
  cache = (r.name, with_gv r.name (some gv)) ∷ m.cache;
  namespaced = (r.name, r.namespaced) ∷ m.namespaced;
}

unfoldable pub load_resources : GroupVersion → List ApiResource → Maps → Maps
unfolding contains_slash
load_resources gv [] m = m
load_resources gv (r ∷ rs) m =
    load_resources gv rs (if is_skipped r then m else put_resource gv r m)

-- `parse` is ParseGroupVersion
module _ (parse : String → Option GroupVersion) where
  abbrev pub load_list : Option GroupVersion → List ApiResource → Maps → Maps
  load_list none rs m = m
  load_list (some gv) rs m = load_resources gv rs m

  unfoldable pub load_lists : List ApiResourceList → Maps → Maps
  unfolding load_resources
  load_lists [] m = m
  load_lists (l ∷ ls) m = load_lists ls (load_list (parse l.group_version) l.resources m)

  abbrev pub load_groups : Option (List ApiResourceList) → Maps
  load_groups none = no_maps
  load_groups (some ls) = load_lists ls no_maps

  -- refreshLocked, at an answer of the discovery client: an error with no groups leaves no entries,
  -- as no groups do, and one with groups is passed over
  unfoldable pub refresh : Discovered → Resolver → Resolver
  unfolding load_lists
  refresh d r =
      let loaded = record r { maps = load_groups d.groups; loaded = true } in
      if r.has_discovery then loaded else record r { maps = no_maps; loaded = true }

  unfoldable pub refreshed : Discovered → Resolver → Resolver
  unfolding refresh
  refreshed d r = if r.loaded then r else refresh d r

  abbrev pub or_well_known : String → Option GroupVersionResource → GroupVersionResource
  or_well_known resource none = well_known_fallback resource
  or_well_known resource (some g) = g

  abbrev pub or_namespaced : String → Option Bool → Bool
  or_namespaced resource none = well_known_namespaced_fallback resource
  or_namespaced resource (some b) = b

  -- Resolve; `d` is what the discovery client would answer now
  unfoldable pub resolve : Discovered → String → Resolver → GroupVersionResource × Resolver
  unfolding refreshed find_key well_known_fallback
  resolve d resource r =
      let r' = refreshed d r in (or_well_known resource (find_key resource r'.maps.cache), r')

  -- IsNamespaced
  unfoldable pub is_namespaced : Discovered → String → Resolver → Bool × Resolver
  unfolding refreshed find_key well_known_namespaced_fallback
  is_namespaced d resource r =
      let r' = refreshed d r in (or_namespaced resource (find_key resource r'.maps.namespaced), r')

-- NewResolver; `false` is a nil discovery client
abbrev pub new_resolver : Bool → Resolver
new_resolver has_discovery = record {
  has_discovery = has_discovery;
  maps = no_maps;
  loaded = false;
}

-- Invalidate
unfoldable pub invalidate : Resolver → Resolver
invalidate r = record r { maps = no_maps; loaded = false }
