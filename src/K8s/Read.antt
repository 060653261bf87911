-- ===== src/K8s/Read.antt =====
-- internal/tools/k8s/get.go, List of list.go and Describe of describe.go.
pub mod Hints
pub mod Table
use kubernetes_agent.Base.{
  String, Bool, true, false, List, [], ◌∷◌, Option, none, some, Result, ok, err, ◌==◌,
  if◌then◌else◌,
}
use Prim.Native.String.{◌++◌}
use kubernetes_agent.Json.{Json, arr, obj, Items, nil, cons, Fields, get, as_map}
use kubernetes_agent.K8s.Api.{Gvr, ApiError, Target}
use kubernetes_agent.K8s.Read.Hints.{as_items, diagnose_status}

-- a list of the dynamic client, with metav1.ListOptions
pub record ListRequest : Type 0 where
  pub cluster : String
  pub gvr : Gvr
  pub namespace : String
  pub label_selector : String
  pub field_selector : String

-- the ClientFactory and the libraries behind it, at the moment of a read; `connect` is Get of the
-- factory, `resolve` Resolve of the cluster's resolver, and `uid_of` GetUID of an object
pub record Reader : Type 0 where
  pub connect : String → Result String (Unit {0})
  pub resolve : String → String → Gvr
  pub get_object : Target → Result ApiError Fields
  pub list_objects : ListRequest → Result ApiError (List Fields)
  pub uid_of : Fields → String

-- the errors, by the text that wraps them; `panics` is a failed type assertion
pub data ReadError : Type 0 where
  no_client : String → ReadError
  get_failed describe_failed : String → String → ApiError → ReadError
  list_failed : String → ApiError → ReadError
  panics : ReadError

-- GetInput and DescribeInput
pub record ObjectInput : Type 0 where
  pub resource : String
  pub name : String
  pub namespace : String
  pub cluster_id : String

pub record ListInput : Type 0 where
  pub resource : String
  pub namespace : String
  pub label_selector : String
  pub cluster_id : String

abbrev pub or_default_namespace : String → String
or_default_namespace ns = if ns == "" then "default" else ns

pub record DescribeOutput : Type 0 where
  pub object : Fields
  pub events : List Fields
  pub owner_refs : List Fields
  pub diagnosis_hints : List String

abbrev pub cons_map : Option Fields → List Fields → List Fields
cons_map none ms = ms
cons_map (some m) ms = m ∷ ms

-- the items that are maps
unfoldable pub maps_in : Items → List Fields
maps_in nil = []
maps_in (cons v vs) = cons_map (as_map (some v)) (maps_in vs)

abbrev pub or_no_events : Result ApiError (List Fields) → List Fields
or_no_events (err e) = []
or_no_events (ok es) = es

abbrev pub got : (ApiError → ReadError) → Result ApiError Fields → Result ReadError Fields
got f (err e) = err (f e)
got f (ok m) = ok m

abbrev pub listed : String → Result ApiError (List Fields) → Result ReadError (List Fields)
listed resource (err e) = err (list_failed resource e)
listed resource (ok ms) = ok ms

abbrev pub with_client {ℓ} :
    {A : Type ℓ} → Result String (Unit {0}) → Result ReadError A → Result ReadError A
with_client (err e) r = err (no_client e)
with_client (ok u) r = r

module _ (reader : Reader) where
  abbrev pub object_target : ObjectInput → Target
  object_target i = record {
    cluster = i.cluster_id;
    gvr = reader.resolve i.cluster_id i.resource;
    namespace = or_default_namespace i.namespace;
    name = i.name;
  }

  -- the object of an input, where a client can be made
  unfoldable pub fetch : (ApiError → ReadError) → ObjectInput → Result ReadError Fields
  fetch f i =
      with_client (reader.connect i.cluster_id) (got f (reader.get_object (object_target i)))

  -- Get
  unfoldable pub get_resource : ObjectInput → Result ReadError Fields
  unfolding fetch
  get_resource i = fetch (get_failed (or_default_namespace i.namespace) i.name) i

  -- List
  unfoldable pub list_resources : ListInput → Result ReadError (List Fields)
  list_resources i = with_client (reader.connect i.cluster_id) (
      listed i.resource (
        reader.list_objects (record {
          cluster = i.cluster_id;
          gvr = reader.resolve i.cluster_id i.resource;
          namespace = i.namespace;
          label_selector = i.label_selector;
          field_selector = "";
        })))

  -- listEvents, whose error Describe ignores
  unfoldable pub list_events : String → String → String → Result ApiError (List Fields)
  list_events cluster namespace uid = reader.list_objects (record {
    cluster = cluster;
    gvr = record { group = ""; version = "v1"; resource = "events" };
    namespace = namespace;
    label_selector = "";
    field_selector = "involvedObject.uid=" ++ uid;
  })

  -- Describe, once it has the object and its metadata
  unfoldable pub described : ObjectInput → Fields → Option Fields → Result ReadError DescribeOutput
  unfolding list_events maps_in get diagnose_status
  described i content none = err panics
  described i content (some metadata) =
      let out : DescribeOutput = record {
        object = content;
        events =
            or_no_events
              (list_events i.cluster_id (or_default_namespace i.namespace) (reader.uid_of content));
        owner_refs = maps_in (as_items (get "ownerReferences" metadata));
        diagnosis_hints = diagnose_status content;
      } in
      ok out

  abbrev pub describe_content :
      ObjectInput → Result ReadError Fields → Result ReadError DescribeOutput
  describe_content i (err e) = err e
  describe_content i (ok content) = described i content (as_map (get "metadata" content))

  unfoldable pub describe : ObjectInput → Result ReadError DescribeOutput
  unfolding fetch described
  describe i =
      describe_content i (fetch (describe_failed (or_default_namespace i.namespace) i.name) i)
