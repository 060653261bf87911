-- ===== src/Policy/Defaults.antt =====
-- What the rules of DefaultRules decide.
use kubernetes_agent.Base.{ℕ, String, ◌≡◌, ◌≢◌, refl, ◌⊎◌, true, false, [], ◌∷◌, arith, eq_iff}
use kubernetes_agent.Text.{codes, equal_fold}
use kubernetes_agent.Policy.Rules.{
  OperationInfo, allow, confirm, deny, deny_delete_system_ns, deny_dangerous_kinds, deny_privileged,
  default_rules,
}
use kubernetes_agent.Policy.Engine.{contains, canonical_kind, is_write, matches, evaluate}
use kubernetes_agent.Policy.FirstMatch.{evaluate-ne-allow}

-- the plural names of the kinds that deny-dangerous-kinds lists
pub data IsPlural : String → Type 0 where
  nodes : IsPlural "nodes"
  clusterroles : IsPlural "clusterroles"
  clusterrolebindings : IsPlural "clusterrolebindings"
  customresourcedefinitions : IsPlural "customresourcedefinitions"

deny-ne-allow : deny ≢ allow
deny-ne-allow = ground (arith, eq_iff deny allow)

confirm-ne-allow : confirm ≢ allow
confirm-ne-allow = ground (arith, eq_iff confirm allow)

module _ (orbit : ℕ → ℕ) where
  -- `EqualFold(x, y)` on two texts
  abbrev pub SameFold : String → String → Type 0
  SameFold x y = equal_fold orbit (codes x) (codes y) ≡ true

  abbrev pub IsSystemNamespace : String → Type 0
  IsSystemNamespace n =
      SameFold "kube-system" n ⊎ (SameFold "kube-public" n ⊎ SameFold "kube-node-lease" n)

  -- A delete in kube-system, kube-public or kube-node-lease is denied by the default rules, whatever
  -- the letter case of the action and the namespace and whatever else the operation says.
  pub evaluate_system_delete :
      (op : OperationInfo)
      → SameFold "delete" op.action
      → IsSystemNamespace op.namespace
      → evaluate orbit default_rules op ≡ deny
  unfolding evaluate matches contains
  evaluate_system_delete op d n = ground arith

  -- The default rules never answer `allow` for an `apply`, a `delete` or a `scale`.
  pub evaluate_default_write :
      (op : OperationInfo) → is_write op.action ≡ true → evaluate orbit default_rules op ≢ allow
  evaluate_default_write op w =
      evaluate-ne-allow orbit op default_rules
        (deny-ne-allow, (deny-ne-allow, (deny-ne-allow, (confirm-ne-allow, tt)))) w

  plural_missed :
      (resource : String)
      → IsPlural resource
      → contains orbit deny_dangerous_kinds.match.kind (canonical_kind resource) ≡ false
  unfolding contains canonical_kind equal_fold
  plural_missed _ nodes = refl
  plural_missed _ clusterroles = refl
  plural_missed _ clusterrolebindings = refl
  plural_missed _ customresourcedefinitions = refl

  delete_not_apply : (a : String) → a ≡ "delete" → contains orbit ("apply" ∷ []) (codes a) ≡ false
  unfolding contains equal_fold
  delete_not_apply a e = rw e refl

  dangerous_missed :
      (op : OperationInfo)
      → IsPlural op.resource
      → matches orbit deny_dangerous_kinds.match op ≡ false
  unfolding matches
  dangerous_missed op p = ground (arith, plural_missed op.resource p)

  system_missed :
      (op : OperationInfo)
      → ¬ IsSystemNamespace op.namespace
      → matches orbit deny_delete_system_ns.match op ≡ false
  unfolding matches contains
  system_missed op p = ground arith

  privileged_missed :
      (op : OperationInfo) → op.action ≡ "delete" → matches orbit deny_privileged.match op ≡ false
  unfolding matches
  privileged_missed op p = ground (arith, delete_not_apply op.action p)

  -- An operation that names its resource by the lowercase plural, as the tool's schema asks, is never
  -- caught by the rule against dangerous kinds: outside the system namespaces a delete of `nodes`,
  -- `clusterroles`, `clusterrolebindings` or `customresourcedefinitions` is answered `confirm`.
  pub evaluate_plural_delete :
      (op : OperationInfo)
      → op.action ≡ "delete"
      → IsPlural op.resource
      → ¬ IsSystemNamespace op.namespace
      → evaluate orbit default_rules op ≡ confirm
  unfolding evaluate is_write
  evaluate_plural_delete op a p n = ground (
    arith,
    dangerous_missed op p,
    system_missed op n,
    privileged_missed op a,
    eq_iff op.action "delete",
  )
