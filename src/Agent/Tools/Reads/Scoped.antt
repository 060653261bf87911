-- ===== src/Agent/Tools/Reads/Scoped.antt =====
-- Which cluster the read tools read.
use kubernetes_agent.Base.{
  String, Option, none, some, Result, ok, err, ◌≡◌, refl, sym, ap, subst, ◌∙◌, inl, inr, Bool-cases,
  arith, ◌==◌, ◌||◌,
}
use kubernetes_agent.Json.{Fields, get, as_map}
use kubernetes_agent.K8s.Api.{ApiError, Target}
use kubernetes_agent.K8s.Read.{
  Reader, ReadError, ListRequest, ObjectInput, object_target, fetch, get_resource, list_events,
  described, describe, describe_failed, get_failed, or_default_namespace, got, or_no_events,
  with_client, describe_content, maps_in,
}
use kubernetes_agent.K8s.Read.Hints.{as_items, diagnose_status}
use kubernetes_agent.Agent.Session.{Session}
use kubernetes_agent.Agent.Tools.Reads.{
  ReadToolError, bound_object, answered, read_bound, get_tool, describe_tool,
}

-- two readers that read one cluster alike, whatever they read elsewhere
pub record ReadAlike (cluster : String) (a b : Reader) : Type 0 where
  pub connects : a.connect cluster ≡ b.connect cluster
  pub resolves : (r : String) → a.resolve cluster r ≡ b.resolve cluster r
  pub gets : (t : Target) → t.cluster ≡ cluster → a.get_object t ≡ b.get_object t
  pub lists : (r : ListRequest) → r.cluster ≡ cluster → a.list_objects r ≡ b.list_objects r
  pub uids : (m : Fields) → a.uid_of m ≡ b.uid_of m

bound_object-cluster :
    (s : Session) (input : Option ObjectInput) (i : ObjectInput)
    → bound_object s input ≡ ok i
    → i.cluster_id ≡ s.cluster_id
unfolding bound_object
bound_object-cluster s none i h = cc
bound_object-cluster s (some j) i h = elim (Bool-cases (j.resource == "" || j.name == "")) [
  | inl e ↦ ground (arith, e, h)
  | inr e ↦ elim (Bool-cases (s.cluster_id == "")) [
    | inl g ↦ ground (arith, e, g, h)
    | inr g ↦
        let o : ObjectInput = record j { cluster_id = s.cluster_id } in
        let same : o ≡ i = ground (arith, e, g, h) in
        ap (λ (x : ObjectInput). x.cluster_id) (sym same)
  ]
]

module _ (a b : Reader) (i : ObjectInput) (agree : ReadAlike i.cluster_id a b) where
  fetched_alike : a.get_object (object_target a i) ≡ b.get_object (object_target b i)
  fetched_alike =
      let named : object_target a i ≡ object_target b i =
        ap
          (λ g. record {
            cluster = i.cluster_id;
            gvr = g;
            namespace = or_default_namespace i.namespace;
            name = i.name;
          })
          (agree.resolves i.resource) in
      agree.gets (object_target a i) refl ∙ ap b.get_object named

  fetch_alike : (f : ApiError → ReadError) → fetch a f i ≡ fetch b f i
  unfolding fetch
  fetch_alike f =
      ap (λ c. with_client c (got f (a.get_object (object_target a i)))) agree.connects
      ∙ ap (λ m. with_client (b.connect i.cluster_id) (got f m)) fetched_alike

  described_alike :
      (content : Fields) (metadata : Option Fields)
      → described a i content metadata ≡ described b i content metadata
  unfolding described list_events
  described_alike content none = refl
  described_alike content (some metadata) =
      let request : String → ListRequest = λ uid. record {
        cluster = i.cluster_id;
        gvr = record { group = ""; version = "v1"; resource = "events" };
        namespace = or_default_namespace i.namespace;
        label_selector = "";
        field_selector = uid;
      } in
      ap
        (λ es. ok (record {
          object = content;
          events = or_no_events es;
          owner_refs = maps_in (as_items (get "ownerReferences" metadata));
          diagnosis_hints = diagnose_status content;
        }))
        (ap (λ uid. list_events a i.cluster_id (or_default_namespace i.namespace) uid)
            (agree.uids content)
          ∙ agree.lists _ refl)

  content_alike : (r : Result ReadError Fields) → describe_content a i r ≡ describe_content b i r
  unfolding described
  content_alike (err e) = refl
  content_alike (ok content) = described_alike content (as_map (get "metadata" content))

  describe_alike : describe a i ≡ describe b i
  unfolding describe
  describe_alike =
      let f = describe_failed (or_default_namespace i.namespace) i.name in
      ap (describe_content a i) (fetch_alike f) ∙ content_alike (fetch b f i)

bound_alike :
    (a b : Reader) (cluster : String) (r : Result ReadToolError ObjectInput)
    → ((i : ObjectInput) → r ≡ ok i → i.cluster_id ≡ cluster)
    → ReadAlike cluster a b
    → (read_bound r (get_resource a) ≡ read_bound r (get_resource b))
      × (read_bound r (describe a) ≡ read_bound r (describe b))
unfolding get_resource
bound_alike a b cluster (err e) same agree = (refl, refl)
bound_alike a b cluster (ok i) same agree =
    let here : ReadAlike i.cluster_id a b =
      subst (λ c. ReadAlike c a b) (sym (same i refl)) agree in
    (
      ap answered (fetch_alike a b i here (get_failed (or_default_namespace i.namespace) i.name)),
      ap answered (describe_alike a b i here),
    )

-- The answers of k8s_get and k8s_describe depend on the session's cluster only, whatever cluster the
-- model's input names: two readers that read that cluster alike answer alike.
pub read_tools_scoped :
    (a b : Reader) (s : Session) (input : Option ObjectInput)
    → ReadAlike s.cluster_id a b
    → (get_tool a s input ≡ get_tool b s input)
      × (describe_tool a s input ≡ describe_tool b s input)
unfolding get_tool describe_tool
read_tools_scoped a b s input agree =
    bound_alike a b s.cluster_id (bound_object s input) (bound_object-cluster s input) agree
