-- ===== src/K8s/Api.antt =====
-- What the tools ask of a cluster: the calls of client-go's dynamic client as requests, and a
-- server that answers each from the requests before it.
use kubernetes_agent.Base.{String, Bool, true, false, List, [], ◌∷◌, ◌++◌, Result, ok, err}
use kubernetes_agent.Json.{Fields}

-- schema.GroupVersionResource
pub record Gvr : Type 0 where
  pub group : String
  pub version : String
  pub resource : String

-- isNotFound tells `not_found` from the other errors
pub data ApiError : Type 0 where
  not_found : ApiError
  other : String → ApiError

-- the object that a request is about
pub record Target : Type 0 where
  pub cluster : String
  pub gvr : Gvr
  pub namespace : String
  pub name : String

-- a `Bool` says whether the request is a dry run
pub data Request : Type 0 where
  get : Target → Request
  create patch : Target → Fields → Bool → Request
  delete : Target → Request

abbrev pub target_of : Request → Target
target_of (get t) = t
target_of (create t body dry) = t
target_of (patch t body dry) = t
target_of (delete t) = t

-- whether the request may change the cluster
abbrev pub is_mutating : Request → Bool
is_mutating (get t) = false
is_mutating (create t body dry) = elim dry [ true ↦ false | false ↦ true ]
is_mutating (patch t body dry) = elim dry [ true ↦ false | false ↦ true ]
is_mutating (delete t) = true

-- the ClientFactory and the libraries behind it: `connect` is Get of the factory, `resolve` Resolve
-- of the cluster's resolver, `name_of` GetName of an unstructured object, `respond` the apiserver
pub record Api : Type 0 where
  pub connect : List Request → String → Result String (Unit {0})
  pub resolve : String → String → Gvr
  pub name_of : Fields → String
  pub respond : List Request → Request → Result ApiError Fields

pub data OpError : Type 0 where
  no_client : String → OpError
  needs_manifest : OpError
  unknown_action : String → OpError
  api_error : ApiError → OpError
  no_rollback : String → OpError

-- the requests sent so far, in order
abbrev pub Trace : Type 0
Trace = List Request

-- a run that sends requests and returns a value or an error
abbrev pub Call : Type 0 → Type 0 → Type 0
Call E A = Trace → Result E A × Trace

module _ {E A B : Type 0} where
  abbrev pub continue : Result E A → (A → Call E B) → Call E B
  continue (ok a) f t = f a t
  continue (err e) f t = (err e, t)

  infixl 5 ◌>>=◌
  unfoldable pub ◌>>=◌ : Call E A → (A → Call E B) → Call E B
  ◌>>=◌ m f t = let (r, t') = m t in continue r f t'

module _ {E A : Type 0} where
  unfoldable pub pure : A → Call E A
  pure a t = (ok a, t)

  unfoldable pub fail : E → Call E A
  fail e t = (err e, t)

  abbrev pub map_error : {F : Type 0} → (E → F) → Result E A → Result F A
  map_error f (ok a) = ok a
  map_error f (err e) = err (f e)

-- fmt.Errorf("…: %w", err)
unfoldable pub wrap : {E F A : Type 0} → (E → F) → Call E A → Call F A
wrap f m t = let (r, t') = m t in (map_error f r, t')

abbrev lift_answer : Result ApiError Fields → Result OpError Fields
lift_answer (ok m) = ok m
lift_answer (err e) = err (api_error e)

-- one request whose error ends the operation
unfoldable pub send : Api → Request → Call OpError Fields
send api q t = (lift_answer (api.respond t q), t ++ q ∷ [])

-- f.Get(ctx, clusterID)
unfoldable pub connect_to : Api → String → Call OpError (Unit {0})
connect_to api id t = elim (api.connect t id) [ ok _ ↦ (ok tt, t) | err e ↦ (err (no_client e), t) ]

-- what a Get tells the create-or-update branch
pub data Existing : Type 0 where
  absent present : Existing

abbrev existing : Result ApiError Fields → Result OpError Existing
existing (ok m) = ok present
existing (err not_found) = ok absent
existing (err (other e)) = err (api_error (other e))

unfoldable pub look : Api → Target → Call OpError Existing
look api t0 t = (existing (api.respond t (get t0)), t ++ get t0 ∷ [])
