-- ===== src/K8s/Resolver/Entries.antt =====
-- What the maps of a resolver hold after a discovery: for every name the last entry of the answer.
use kubernetes_agent.Base.{
  String, Bool, List, [], ◌∷◌, Option, none, some, ◌≡◌, refl, ◌∙◌, ap, arith, ◌==◌, if◌then◌else◌,
}
use kubernetes_agent.K8s.Resolver.{
  GroupVersion, GroupVersionResource, ApiResource, ApiResourceList, Maps, find_key, is_skipped,
  with_gv, put_resource, load_resources, load_list, load_lists,
}

abbrev pub or_else {ℓ} : {A : Type ℓ} → Option A → Option A → Option A
or_else none b = b
or_else (some a) b = some a

-- the last resource of a list that has a name and can be addressed
unfoldable pub last_named : String → List ApiResource → Option ApiResource
last_named name [] = none
last_named name (r ∷ rs) =
    or_else (last_named name rs)
      (if is_skipped r then none else if r.name == name then some r else none)

-- what a list says of a name
abbrev pub named_here : String → ApiResource → Option ApiResource
named_here name r = if is_skipped r then none else if r.name == name then some r else none

abbrev pub gvr_in : GroupVersion → Option ApiResource → Option GroupVersionResource
gvr_in gv none = none
gvr_in gv (some r) = some (with_gv r.name (some gv))

abbrev pub scope_in : Option ApiResource → Option Bool
scope_in none = none
scope_in (some r) = some r.namespaced

or_else_assoc {ℓ} :
    {A : Type ℓ} (a b c : Option A) → or_else a (or_else b c) ≡ or_else (or_else a b) c
or_else_assoc none b c = refl
or_else_assoc (some a) b c = refl

gvr_in-or_else :
    (gv : GroupVersion) (a b : Option ApiResource)
    → or_else (gvr_in gv a) (gvr_in gv b) ≡ gvr_in gv (or_else a b)
gvr_in-or_else gv none b = refl
gvr_in-or_else gv (some a) b = refl

scope_in-or_else :
    (a b : Option ApiResource) → or_else (scope_in a) (scope_in b) ≡ scope_in (or_else a b)
scope_in-or_else none b = refl
scope_in-or_else (some a) b = refl

-- one step of the loop, on either map
step_cache :
    (name : String) (gv : GroupVersion) (r : ApiResource) (m : Maps)
    → find_key name (if is_skipped r then m else put_resource gv r m).cache
      ≡ or_else (gvr_in gv (named_here name r)) (find_key name m.cache)
unfolding find_key
step_cache name gv r m = ground arith

step_namespaced :
    (name : String) (gv : GroupVersion) (r : ApiResource) (m : Maps)
    → find_key name (if is_skipped r then m else put_resource gv r m).namespaced
      ≡ or_else (scope_in (named_here name r)) (find_key name m.namespaced)
unfolding find_key
step_namespaced name gv r m = ground arith

pub load_resources-cache :
    (name : String) (gv : GroupVersion) (rs : List ApiResource) (m : Maps)
    → find_key name (load_resources gv rs m).cache
      ≡ or_else (gvr_in gv (last_named name rs)) (find_key name m.cache)
unfolding load_resources last_named
load_resources-cache name gv [] m = refl
load_resources-cache name gv (r ∷ rs) m =
    let m' = (if is_skipped r then m else put_resource gv r m) in
    load_resources-cache name gv rs m'
    ∙ ap (or_else (gvr_in gv (last_named name rs))) (step_cache name gv r m)
    ∙ or_else_assoc (gvr_in gv (last_named name rs)) _ _
    ∙ ap (λ o. or_else o (find_key name m.cache)) (gvr_in-or_else gv (last_named name rs) _)

load_resources-namespaced :
    (name : String) (gv : GroupVersion) (rs : List ApiResource) (m : Maps)
    → find_key name (load_resources gv rs m).namespaced
      ≡ or_else (scope_in (last_named name rs)) (find_key name m.namespaced)
unfolding load_resources last_named
load_resources-namespaced name gv [] m = refl
load_resources-namespaced name gv (r ∷ rs) m =
    let m' = (if is_skipped r then m else put_resource gv r m) in
    load_resources-namespaced name gv rs m'
    ∙ ap (or_else (scope_in (last_named name rs))) (step_namespaced name gv r m)
    ∙ or_else_assoc (scope_in (last_named name rs)) _ _
    ∙ ap (λ o. or_else o (find_key name m.namespaced)) (scope_in-or_else (last_named name rs) _)

module _ (parse : String → Option GroupVersion) where
  -- a discovered resource with its group and version
  abbrev pub in_list :
      String → Option GroupVersion → List ApiResource → Option (GroupVersion × ApiResource)
  in_list name none rs = none
  in_list name (some gv) rs = elim (last_named name rs) [ none ↦ none | some r ↦ some (gv, r) ]

  -- the last entry of a name in the whole answer
  unfoldable pub last_entry : String → List ApiResourceList → Option (GroupVersion × ApiResource)
  unfolding last_named
  last_entry name [] = none
  last_entry name (l ∷ ls) =
      or_else (last_entry name ls) (in_list name (parse l.group_version) l.resources)

  abbrev pub gvr_of : Option (GroupVersion × ApiResource) → Option GroupVersionResource
  gvr_of none = none
  gvr_of (some (gv, r)) = some (with_gv r.name (some gv))

  abbrev pub scope_of : Option (GroupVersion × ApiResource) → Option Bool
  scope_of none = none
  scope_of (some (gv, r)) = some r.namespaced

  gvr_of-or_else :
      (a b : Option (GroupVersion × ApiResource))
      → or_else (gvr_of a) (gvr_of b) ≡ gvr_of (or_else a b)
  gvr_of-or_else none b = refl
  gvr_of-or_else (some a) b = refl

  scope_of-or_else :
      (a b : Option (GroupVersion × ApiResource))
      → or_else (scope_of a) (scope_of b) ≡ scope_of (or_else a b)
  scope_of-or_else none b = refl
  scope_of-or_else (some a) b = refl

  gvr_of-in_list :
      (name : String) (gv : GroupVersion) (rs : List ApiResource)
      → gvr_in gv (last_named name rs) ≡ gvr_of (in_list name (some gv) rs)
  gvr_of-in_list name gv rs = ground arith

  scope_of-in_list :
      (name : String) (gv : GroupVersion) (rs : List ApiResource)
      → scope_in (last_named name rs) ≡ scope_of (in_list name (some gv) rs)
  scope_of-in_list name gv rs = ground arith

  load_list-cache :
      (name : String) (o : Option GroupVersion) (rs : List ApiResource) (m : Maps)
      → find_key name (load_list parse o rs m).cache
        ≡ or_else (gvr_of (in_list name o rs)) (find_key name m.cache)
  load_list-cache name none rs m = refl
  load_list-cache name (some gv) rs m =
      load_resources-cache name gv rs m
      ∙ ap (λ o. or_else o (find_key name m.cache)) (gvr_of-in_list name gv rs)

  load_list-namespaced :
      (name : String) (o : Option GroupVersion) (rs : List ApiResource) (m : Maps)
      → find_key name (load_list parse o rs m).namespaced
        ≡ or_else (scope_of (in_list name o rs)) (find_key name m.namespaced)
  load_list-namespaced name none rs m = refl
  load_list-namespaced name (some gv) rs m =
      load_resources-namespaced name gv rs m
      ∙ ap (λ o. or_else o (find_key name m.namespaced)) (scope_of-in_list name gv rs)

  pub load_lists-cache :
      (name : String) (ls : List ApiResourceList) (m : Maps)
      → find_key name (load_lists parse ls m).cache
        ≡ or_else (gvr_of (last_entry name ls)) (find_key name m.cache)
  unfolding load_lists last_entry
  load_lists-cache name [] m = refl
  load_lists-cache name (l ∷ ls) m =
      let o = parse l.group_version in
      load_lists-cache name ls (load_list parse o l.resources m)
      ∙ ap (or_else (gvr_of (last_entry name ls))) (load_list-cache name o l.resources m)
      ∙ or_else_assoc (gvr_of (last_entry name ls)) _ _
      ∙ ap (λ e. or_else e (find_key name m.cache)) (gvr_of-or_else (last_entry name ls) _)

  pub load_lists-namespaced :
      (name : String) (ls : List ApiResourceList) (m : Maps)
      → find_key name (load_lists parse ls m).namespaced
        ≡ or_else (scope_of (last_entry name ls)) (find_key name m.namespaced)
  unfolding load_lists last_entry
  load_lists-namespaced name [] m = refl
  load_lists-namespaced name (l ∷ ls) m =
      let o = parse l.group_version in
      load_lists-namespaced name ls (load_list parse o l.resources m)
      ∙ ap (or_else (scope_of (last_entry name ls))) (load_list-namespaced name o l.resources m)
      ∙ or_else_assoc (scope_of (last_entry name ls)) _ _
      ∙ ap (λ e. or_else e (find_key name m.namespaced)) (scope_of-or_else (last_entry name ls) _)
