-- ===== src/K8s/Resolver/Tests.antt =====
-- A resolver at a concrete discovery.
use kubernetes_agent.Base.{String, true, false, List, [], ◌∷◌, Option, none, some, ◌≡◌, refl}
use kubernetes_agent.K8s.Resolver.{
  GroupVersion, apps, ApiResourceList, Discovered, is_namespaced, new_resolver,
}
use kubernetes_agent.K8s.Resolver.InForce.{
  Call, ask_gvr, ask_scope, drop, run_calls, contract, run_calls-contract,
}

abbrev parse : String → Option GroupVersion
parse s = some apps

abbrev listed : ApiResourceList
listed = record {
  group_version = "apps/v1";
  resources =
      record { name = "deployments"; namespaced = true }
      ∷ record { name = "deployments/status"; namespaced = true }
      ∷ [];
}

abbrev deployments : Discovered
deployments = record { groups = some (listed ∷ []); failed = false }

abbrev nothing : Discovered
nothing = record { groups = none; failed = true }

abbrev calls : List Call
calls = ask_gvr deployments "deployments" ∷ ask_scope nothing "deployments" ∷ drop ∷ []

run_calls-contract_example :
    run_calls parse calls (new_resolver true) ≡ contract parse true calls none
run_calls-contract_example = run_calls-contract parse true calls

-- without discovery events are taken for a resource of the cluster
events_scope : (is_namespaced parse nothing "events" (new_resolver true)).0 ≡ false
unfolding is_namespaced
events_scope = refl
