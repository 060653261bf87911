-- ===== src/K8s/Resolver/InForce.antt =====
-- A resolver against its contract: it answers from one discovery, the one of the first call since it
-- was made or invalidated, as if it kept the answer itself and no maps.
use kubernetes_agent.Base.{
  String, Bool, true, false, List, [], ◌∷◌, Option, none, some, ◌≡◌, refl, ◌∙◌, if◌then◌else◌,
}
use kubernetes_agent.K8s.Resolver.{
  GroupVersion, GroupVersionResource, ApiResource, ApiResourceList, Discovered, Maps, no_maps,
  Resolver, find_key, load_groups, refresh, refreshed, or_well_known, or_namespaced, resolve,
  is_namespaced, invalidate, new_resolver,
}
use kubernetes_agent.K8s.Resolver.Entries.{
  or_else, last_entry, gvr_of, scope_of, load_lists-cache, load_lists-namespaced,
}

pub data Call : Type 0 where
  ask_gvr : Discovered → String → Call
  ask_scope : Discovered → String → Call
  drop : Call

pub data Answer : Type 0 where
  gvr : GroupVersionResource → Answer
  scope : Bool → Answer
  dropped : Answer

or_else-none {ℓ} : {A : Type ℓ} (a : Option A) → or_else a none ≡ a
or_else-none none = refl
or_else-none (some a) = refl

module _ (parse : String → Option GroupVersion) where
  -- a sequence of calls, each with what the discovery client would answer at the time
  unfoldable pub run_calls : List Call → Resolver → List Answer
  unfolding resolve is_namespaced invalidate
  run_calls [] r = []
  run_calls (ask_gvr d name ∷ calls) r =
      gvr (resolve parse d name r).0 ∷ run_calls calls (resolve parse d name r).1
  run_calls (ask_scope d name ∷ calls) r =
      scope (is_namespaced parse d name r).0 ∷ run_calls calls (is_namespaced parse d name r).1
  run_calls (drop ∷ calls) r = dropped ∷ run_calls calls (invalidate r)

  -- the contract: the state is the answer in force, if there is one
  abbrev pub entry_in : String → Option (List ApiResourceList) → Option (GroupVersion × ApiResource)
  entry_in name none = none
  entry_in name (some ls) = last_entry parse name ls

  abbrev pub seen : Bool → Discovered → Option (List ApiResourceList)
  seen has_discovery d = if has_discovery then d.groups else none

  abbrev pub in_force :
      Bool → Discovered → Option (Option (List ApiResourceList)) → Option (List ApiResourceList)
  in_force has_discovery d none = seen has_discovery d
  in_force has_discovery d (some groups) = groups

  unfoldable pub contract : Bool → List Call → Option (Option (List ApiResourceList)) → List Answer
  contract has_discovery [] o = []
  contract has_discovery (ask_gvr d name ∷ calls) o =
      let groups = in_force has_discovery d o in
      gvr (or_well_known parse name (gvr_of parse (entry_in name groups)))
      ∷ contract has_discovery calls (some groups)
  contract has_discovery (ask_scope d name ∷ calls) o =
      let groups = in_force has_discovery d o in
      scope (or_namespaced parse name (scope_of parse (entry_in name groups)))
      ∷ contract has_discovery calls (some groups)
  contract has_discovery (drop ∷ calls) o = dropped ∷ contract has_discovery calls none

  -- the maps of the resolver against the answer in force
  pub data Holds (has_discovery : Bool)
      : Resolver → Option (Option (List ApiResourceList)) → Type 0 where
    unloaded :
        (m : Maps)
        → Holds has_discovery
            (record { has_discovery = has_discovery; maps = m; loaded = false })
            none
    loaded :
        (groups : Option (List ApiResourceList))
        → Holds has_discovery
            (record {
              has_discovery = has_discovery;
              maps = load_groups parse groups;
              loaded = true;
            })
            (some groups)

  refreshed-Holds :
      (has_discovery : Bool) (d : Discovered) (r : Resolver)
      (o : Option (Option (List ApiResourceList)))
      → Holds has_discovery r o
      → refreshed parse d r ≡ record {
        has_discovery = has_discovery;
        maps = load_groups parse (in_force has_discovery d o);
        loaded = true;
      }
  unfolding refreshed refresh
  refreshed-Holds true d _ _ (unloaded m) = refl
  refreshed-Holds false d _ _ (unloaded m) = refl
  refreshed-Holds has_discovery d _ _ (loaded groups) = refl

  load_groups-cache :
      (name : String) (groups : Option (List ApiResourceList))
      → find_key name (load_groups parse groups).cache ≡ gvr_of parse (entry_in name groups)
  unfolding find_key
  load_groups-cache name none = refl
  load_groups-cache name (some ls) = load_lists-cache parse name ls no_maps ∙ or_else-none _

  load_groups-namespaced :
      (name : String) (groups : Option (List ApiResourceList))
      → find_key name (load_groups parse groups).namespaced ≡ scope_of parse (entry_in name groups)
  unfolding find_key
  load_groups-namespaced name none = refl
  load_groups-namespaced name (some ls) =
      load_lists-namespaced parse name ls no_maps ∙ or_else-none _

  -- one call of each kind
  resolve-Holds :
      (h : Bool) (d : Discovered) (name : String) (r : Resolver)
      (o : Option (Option (List ApiResourceList)))
      → Holds h r o
      → ((resolve parse d name r).0
          ≡ or_well_known parse name (gvr_of parse (entry_in name (in_force h d o))))
        × Holds h (resolve parse d name r).1 (some (in_force h d o))
  unfolding resolve
  resolve-Holds h d name r o held =
      rw (refreshed-Holds h d r o held, load_groups-cache name (in_force h d o))
        (refl, loaded (in_force h d o))

  is_namespaced-Holds :
      (h : Bool) (d : Discovered) (name : String) (r : Resolver)
      (o : Option (Option (List ApiResourceList)))
      → Holds h r o
      → ((is_namespaced parse d name r).0
          ≡ or_namespaced parse name (scope_of parse (entry_in name (in_force h d o))))
        × Holds h (is_namespaced parse d name r).1 (some (in_force h d o))
  unfolding is_namespaced
  is_namespaced-Holds h d name r o held =
      rw (refreshed-Holds h d r o held, load_groups-namespaced name (in_force h d o))
        (refl, loaded (in_force h d o))

  invalidate-Holds :
      (h : Bool) (r : Resolver) (o : Option (Option (List ApiResourceList)))
      → Holds h r o
      → Holds h (invalidate r) none
  unfolding invalidate
  invalidate-Holds h _ _ (unloaded m) = unloaded no_maps
  invalidate-Holds h _ _ (loaded groups) = unloaded no_maps

  run_calls-Holds :
      (h : Bool) (calls : List Call) (r : Resolver) (o : Option (Option (List ApiResourceList)))
      → Holds h r o
      → run_calls calls r ≡ contract h calls o
  unfolding run_calls contract
  run_calls-Holds h [] r o held = refl
  run_calls-Holds h (ask_gvr d name ∷ calls) r o held =
      let (e, held') = resolve-Holds h d name r o held in
      rw (e, run_calls-Holds h calls (resolve parse d name r).1 _ held')
  run_calls-Holds h (ask_scope d name ∷ calls) r o held =
      let (e, held') = is_namespaced-Holds h d name r o held in
      rw (e, run_calls-Holds h calls (is_namespaced parse d name r).1 _ held')
  run_calls-Holds h (drop ∷ calls) r o held =
      rw (run_calls-Holds h calls (invalidate r) none (invalidate-Holds h r o held))

  -- Over any sequence of calls a new resolver answers as its contract does: from the discovery of the
  -- first call since it was made or last invalidated, by the last entry of the name that is a
  -- top-level resource of a readable group, and by the table of well-known resources where there is
  -- none or no discovery client.
  pub run_calls-contract :
      (has_discovery : Bool) (calls : List Call)
      → run_calls calls (new_resolver has_discovery) ≡ contract has_discovery calls none
  run_calls-contract h calls = run_calls-Holds h calls (new_resolver h) none (unloaded no_maps)
