-- ===== src/Policy/Stored.antt =====
-- The default rules on their way through the policies table: SeedDefaultPolicies, then the
-- ReloadPolicies that every edit of a policy runs.
use kubernetes_agent.Base.{
  ℕ, suc, String, ◌≡◌, ◌≢◌, refl, true, false, List, [], ◌∷◌, ◌++◌, some, ◌⊎◌, inl, inr, Result, ok,
  arith, All, any, ◌∙◌, ◌==◌,
}
use kubernetes_agent.Json.{Fields}
use kubernetes_agent.Text.{codes, equal_fold}
use kubernetes_agent.Store.Failure.{DbError}
use kubernetes_agent.Store.Policies.{
  Policy, takes_name, has_id, upsert_policy, seed_rules, seed_default_policies, seeded,
  list_enabled_policies_for_engine, EngineRow, engine_rows,
}
use kubernetes_agent.Policy.Rules.{
  Rule, OperationInfo, confirm, deny, deny_delete_system_ns, deny_dangerous_kinds, deny_privileged,
  confirm_production, default_rules,
}
use kubernetes_agent.Policy.Engine.{contains, unsafe_found, matches, evaluate}
use kubernetes_agent.Policy.Reload.{
  Engine, load_rules, load_rules-cons, reload_policies, reload_policies-ok,
}

-- the rules in the order of their names
abbrev pub by_name : List Rule
by_name = confirm_production ∷ deny_dangerous_kinds ∷ deny_delete_system_ns ∷ deny_privileged ∷ []

module _ (encode : Rule → Result DbError String) (decode : String → Result DbError Rule) where
  -- yaml.v3 prints the rule as some text, and reads that text back as the rule
  pub record RoundTrips (r : Rule) : Type 0 where
    pub text : String
    pub printed : encode r ≡ ok text
    pub some_text : (text == "") ≡ false
    pub read : decode text ≡ ok r

module _ (encode : Rule → Result DbError String) (ids : ℕ → String) (now : ℕ) where
  seed_step :
      (i : ℕ) (r : Rule) (rules : List Rule) (rows : List Policy) (yaml : String)
      → encode r ≡ ok yaml
      → any (takes_name (seeded ids now i r yaml)) rows ≡ false
      → any (has_id (ids i)) rows ≡ false
      → seed_rules encode ids now i (r ∷ rules) rows
        ≡ seed_rules encode ids now
            (suc i)
            rules
            (rows ++ record (seeded ids now i r yaml) { created_at = now; updated_at = now } ∷ [])
  unfolding seed_rules upsert_policy
  seed_step i r rules rows yaml e n d = ground (arith, e, n, d)

module _ (encode : Rule → Result DbError String) (decode : String → Result DbError Rule)
    (ids : ℕ → String) (now : ℕ) (fresh : (i j : ℕ) → i ≢ j → (ids i == ids j) ≡ false)
    (trips : All (RoundTrips encode decode) default_rules) where
  abbrev system_row : Policy
  system_row = seeded ids now 0 deny_delete_system_ns trips.0.text

  abbrev kinds_row : Policy
  kinds_row = seeded ids now 1 deny_dangerous_kinds trips.1.0.text

  abbrev privileged_row : Policy
  privileged_row = seeded ids now 2 deny_privileged trips.1.1.0.text

  abbrev production_row : Policy
  production_row = seeded ids now 3 confirm_production trips.1.1.1.0.text

  abbrev all_rows : List Policy
  all_rows = system_row ∷ kinds_row ∷ privileged_row ∷ production_row ∷ []

  seed_empty : seed_default_policies encode ids now [] ≡ (all_rows, ok tt)
  unfolding seed_default_policies
  seed_empty =
      seed_step encode ids now 0 deny_delete_system_ns
        (deny_dangerous_kinds ∷ deny_privileged ∷ confirm_production ∷ []) [] trips.0.text
        trips.0.printed refl refl
      ∙ seed_step encode ids now 1 deny_dangerous_kinds (deny_privileged ∷ confirm_production ∷ [])
          (system_row ∷ []) trips.1.0.text trips.1.0.printed refl (rw (fresh 0 1 (omega arith)))
      ∙ seed_step encode ids now 2 deny_privileged (confirm_production ∷ [])
          (system_row ∷ kinds_row ∷ []) trips.1.1.0.text trips.1.1.0.printed refl
          (rw (fresh 0 2 (omega arith), fresh 1 2 (omega arith)))
      ∙ seed_step encode ids now 3 confirm_production []
          (system_row ∷ kinds_row ∷ privileged_row ∷ []) trips.1.1.1.0.text trips.1.1.1.0.printed
          refl (rw (fresh 0 3 (omega arith), fresh 1 3 (omega arith), fresh 2 3 (omega arith)))

  abbrev engine_row : Policy → EngineRow
  engine_row p = record { name = p.name; yaml = p.yaml }

  listing :
      list_enabled_policies_for_engine all_rows
      ≡ ok (engine_rows (production_row ∷ kinds_row ∷ system_row ∷ privileged_row ∷ []))
  unfolding list_enabled_policies_for_engine
  listing = refl

  loading :
      load_rules decode
        (engine_rows (production_row ∷ kinds_row ∷ system_row ∷ privileged_row ∷ []))
      ≡ ok by_name
  loading =
      load_rules-cons decode (engine_row production_row) _ confirm_production _
        trips.1.1.1.0.some_text trips.1.1.1.0.read
        (load_rules-cons decode (engine_row kinds_row) _ deny_dangerous_kinds _ trips.1.0.some_text
          trips.1.0.read
          (load_rules-cons decode (engine_row system_row) _ deny_delete_system_ns _
            trips.0.some_text trips.0.read
            (load_rules-cons decode (engine_row privileged_row) [] deny_privileged []
              trips.1.1.0.some_text trips.1.1.0.read (unfold load_rules in refl))))

  -- Seeding an empty table succeeds, and an engine that reloads from it holds the default rules in
  -- the order of their names, with `confirm-production` before every rule that denies.
  pub seed_reload :
      (eng : Engine)
      → let seeding = seed_default_policies encode ids now [] in
        (seeding.1 ≡ ok tt)
        × (reload_policies decode (list_enabled_policies_for_engine seeding.0) eng
            ≡ (ok tt, record { rules = by_name }))
  seed_reload eng =
      (rw seed_empty, rw (seed_empty, listing) (reload_policies-ok decode _ _ eng loading))

module _ (orbit : ℕ → ℕ) where
  apply_in :
      (a : String)
      → a ≡ "apply"
      → contains orbit ("apply" ∷ "delete" ∷ "scale" ∷ []) (codes a) ≡ true
  unfolding contains equal_fold
  apply_in a e = rw e refl

  apply_alone : (a : String) → a ≡ "apply" → contains orbit ("apply" ∷ []) (codes a) ≡ true
  unfolding contains equal_fold
  apply_alone a e = rw e refl

  production_in :
      (n : String)
      → (n ≡ "production") ⊎ (n ≡ "prod")
      → contains orbit ("production" ∷ "prod" ∷ []) (codes n) ≡ true
  unfolding contains equal_fold
  production_in n (inl e) = rw e refl
  production_in n (inr e) = rw e refl

  production_matches :
      (op : OperationInfo)
      → op.action ≡ "apply"
      → (op.namespace ≡ "production") ⊎ (op.namespace ≡ "prod")
      → matches orbit confirm_production.match op ≡ true
  unfolding matches
  production_matches op a n = rw (apply_in op.action a, production_in op.namespace n)

  privileged_matches :
      (op : OperationInfo) (m : Fields)
      → op.action ≡ "apply"
      → op.manifest ≡ some m
      → unsafe_found deny_privileged.match.unsafe_fields m ≡ true
      → matches orbit deny_privileged.match op ≡ true
  unfolding matches
  privileged_matches op m a h u = rw (apply_alone op.action a, h) u

  -- The effect of that order: for an `apply` in `production` or `prod` of a manifest with an unsafe
  -- field, the rules of DefaultRules answer `deny`, and the same rules in the order of their names
  -- answer `confirm`, whatever else the operation says.
  pub evaluate_production :
      (op : OperationInfo) (m : Fields)
      → op.action ≡ "apply"
      → (op.namespace ≡ "production") ⊎ (op.namespace ≡ "prod")
      → op.manifest ≡ some m
      → unsafe_found deny_privileged.match.unsafe_fields m ≡ true
      → (evaluate orbit default_rules op ≡ deny) × (evaluate orbit by_name op ≡ confirm)
  unfolding evaluate
  evaluate_production op m a n h u =
      (rw (privileged_matches op m a h u) (ground arith), rw (production_matches op a n))
