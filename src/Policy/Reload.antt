-- ===== src/Policy/Reload.antt =====
-- Engine.ReloadPolicies of internal/policy/engine.go.
use kubernetes_agent.Base.{
  String, Bool, List, [], ◌∷◌, ◌≡◌, refl, subst, ◌∙◌, ◌⊎◌, inl, inr, Bool-cases, Result-cases,
  >>=-inversion, arith, Result, ok, err, ◌>>=◌, ◌==◌, if◌then◌else◌,
}
use kubernetes_agent.Store.Failure.{DbError}
use kubernetes_agent.Store.Policies.{EngineRow}
use kubernetes_agent.Policy.Rules.{Rule}

pub record Engine : Type 0 where
  pub rules : List Rule

-- the name column of a row wins over the name in its YAML
abbrev pub named : EngineRow → Rule → Rule
named row rule = if row.name == "" then rule else record rule { name = row.name }

-- `decode` is yaml.Unmarshal into a Rule
module _ (decode : String → Result DbError Rule) where
  -- the loop: a row with no YAML is skipped, and the first error ends it
  unfoldable pub load_rules : List EngineRow → Result DbError (List Rule)
  load_rules [] = ok []
  load_rules (row ∷ rows) = elim (row.yaml == "") [
    | Bool.true ↦ load_rules rows
    | Bool.false ↦
        decode row.yaml >>= λ rule. load_rules rows >>= λ rules. ok (named row rule ∷ rules)
  ]

  -- ReloadPolicies over what the store lists: the engine is the second part
  unfoldable pub reload_policies :
      Result DbError (List EngineRow) → Engine → Result DbError (Unit {0}) × Engine
  unfolding load_rules
  reload_policies (err e) eng = (err e, eng)
  reload_policies (ok rows) eng = elim (load_rules rows) [
    | err e ↦ (err e, eng)
    | ok rules ↦ (ok tt, record eng { rules = rules })
  ]

  pub load_rules-cons :
      (row : EngineRow) (rows : List EngineRow) (r : Rule) (rules : List Rule)
      → (row.yaml == "") ≡ Bool.false
      → decode row.yaml ≡ ok r
      → load_rules rows ≡ ok rules
      → load_rules (row ∷ rows) ≡ ok (named row r ∷ rules)
  unfolding load_rules
  load_rules-cons row rows r rules y d h = ground (arith, y, d, h)

  pub reload_policies-ok :
      (rows : List EngineRow) (rules : List Rule) (eng : Engine)
      → load_rules rows ≡ ok rules
      → reload_policies (ok rows) eng ≡ (ok tt, record eng { rules = rules })
  unfolding reload_policies
  reload_policies-ok rows rules eng h = ground (arith, h)

  -- what the rules say of the rows: each row with YAML gives the rule that it decodes to, under the
  -- row's name, in the rows' order
  pub data Loaded : List EngineRow → List Rule → Type 0 where
    done : Loaded [] []
    skip :
        {row : EngineRow} {rows : List EngineRow} {rules : List Rule}
        → (row.yaml == "") ≡ Bool.true
        → Loaded rows rules
        → Loaded (row ∷ rows) rules
    load :
        {row : EngineRow} {rows : List EngineRow} {r : Rule} {rules : List Rule}
        → (row.yaml == "") ≡ Bool.false
        → decode row.yaml ≡ ok r
        → Loaded rows rules
        → Loaded (row ∷ rows) (named row r ∷ rules)

  load_rules-skip :
      (row : EngineRow) (rows : List EngineRow)
      → (row.yaml == "") ≡ Bool.true
      → load_rules rows ≡ load_rules (row ∷ rows)
  unfolding load_rules
  load_rules-skip row rows h = ground (arith, h)

  load_rules-text :
      (row : EngineRow) (rows : List EngineRow)
      → (row.yaml == "") ≡ Bool.false
      → (decode row.yaml >>= λ rule. load_rules rows >>= λ rules. ok (named row rule ∷ rules))
        ≡ load_rules (row ∷ rows)
  unfolding load_rules
  load_rules-text row rows h = rw (h, load_rules)

  load_rules-Loaded :
      (rows : List EngineRow) (rules : List Rule) → load_rules rows ≡ ok rules → Loaded rows rules
  unfolding load_rules
  load_rules-Loaded [] rules h = let e : [] ≡ rules = cc in subst (Loaded []) e done
  load_rules-Loaded (row ∷ rows) rules h = elim (Bool-cases (row.yaml == "")) [
    | inl blank ↦ skip blank (load_rules-Loaded rows rules (load_rules-skip row rows blank ∙ h))
    | inr text ↦
        let (r, read, rest) =
          >>=-inversion _ (decode row.yaml) _ (load_rules-text row rows text ∙ h) in
        let (more, loaded, e) = >>=-inversion _ (load_rules rows) _ rest in
        let e' : named row r ∷ more ≡ rules = cc e in
        subst (Loaded (row ∷ rows)) e' (load text read (load_rules-Loaded rows more loaded))
  ]

  -- A reload that fails leaves the engine's rules as they were, and one that succeeds gives it the
  -- rules of the enabled rows that were listed: the decoded rules of the rows with YAML, in order,
  -- under the rows' names.
  pub reload_policies_atomic :
      (listed : Result DbError (List EngineRow)) (eng : Engine)
      → ((e : DbError) × ((reload_policies listed eng).0 ≡ err e)
          × ((reload_policies listed eng).1 ≡ eng))
        ⊎ ((rows : List EngineRow) × (listed ≡ ok rows)
            × ((reload_policies listed eng).0 ≡ ok tt)
            × Loaded rows (reload_policies listed eng).1.rules)
  reload_policies_atomic (err e) eng =
      inl (e, unfold reload_policies in refl, unfold reload_policies in refl)
  reload_policies_atomic (ok rows) eng = elim (Result-cases (load_rules rows)) [
    | inl (e, h) ↦ inl (
      e,
      unfold reload_policies in ground (arith, h),
      unfold reload_policies in ground (arith, h),
    )
    | inr (rules, h) ↦
        let done : reload_policies (ok rows) eng ≡ (ok tt, record eng { rules = rules }) =
          reload_policies-ok rows rules eng h in
        inr (rows, refl, rw done, rw done (load_rules-Loaded rows rules h))
  ]
