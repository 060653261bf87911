-- ===== src/Store/Policies.antt =====
-- internal/store/policies.go.
use Prim.Native.String.{compare}
use Prim.Native.Nat.{Ordering}
use kubernetes_agent.Base.{
  ℕ, suc, String, Bool, true, not, ◌&&◌, List, [], ◌∷◌, ◌++◌, Result, ok, err, any, length, ltb,
  ◌==◌, if◌then◌else◌,
}
use kubernetes_agent.Store.Failure.{DbError, not_found, constraint}
use kubernetes_agent.Policy.Rules.{Rule, default_rules}

-- times in Unix seconds
pub record Policy : Type 0 where
  pub id : String
  pub name : String
  pub yaml : String
  pub enabled : Bool
  pub created_at : ℕ
  pub updated_at : ℕ

-- a row that `p` conflicts with by the UNIQUE name
abbrev pub takes_name : Policy → Policy → Bool
takes_name p row = row.name == p.name && not (row.id == p.id)

abbrev pub has_id : String → Policy → Bool
has_id id row = row.id == id

abbrev update_row : ℕ → Policy → Policy → Policy
update_row now p row = record row {
  name = p.name;
  yaml = p.yaml;
  enabled = p.enabled;
  updated_at = now;
}

-- ON CONFLICT(id) DO UPDATE
unfoldable pub replace : ℕ → Policy → List Policy → List Policy
replace now p [] = []
replace now p (row ∷ rows) =
    let rest = replace now p rows in
    if row.id == p.id then update_row now p row ∷ rows else row ∷ rest

-- UpsertPolicy
unfoldable pub upsert_policy : ℕ → Policy → List Policy → Result DbError (List Policy)
unfolding replace
upsert_policy now p rows =
    if any (takes_name p) rows
    then err constraint
    else if any (has_id p.id) rows
    then ok (replace now p rows)
    else ok (rows ++ record p { created_at = now; updated_at = now } ∷ [])

-- ORDER BY name: SQLite compares the bytes
unfoldable pub insert_by_name : Policy → List Policy → List Policy
insert_by_name p [] = p ∷ []
insert_by_name p (q ∷ rows) =
    let rest = insert_by_name p rows in
    elim (compare p.name q.name) [ Ordering.gt ↦ q ∷ rest | _ ↦ p ∷ q ∷ rows ]

unfoldable pub order_by_name : List Policy → List Policy
unfolding insert_by_name
order_by_name [] = []
order_by_name (p ∷ rows) = insert_by_name p (order_by_name rows)

-- WHERE enabled = 1
unfoldable pub where_enabled : List Policy → List Policy
where_enabled [] = []
where_enabled (p ∷ rows) = let rest = where_enabled rows in if p.enabled then p ∷ rest else rest

-- ListEnabledPolicies
unfoldable pub list_enabled_policies : List Policy → List Policy
unfolding order_by_name where_enabled
list_enabled_policies rows = order_by_name (where_enabled rows)

-- a row of ListEnabledPoliciesForEngine, a map with the keys "name" and "yaml"
pub record EngineRow : Type 0 where
  pub name : String
  pub yaml : String

abbrev pub engine_rows : List Policy → List EngineRow
engine_rows [] = []
engine_rows (p ∷ rows) = record { name = p.name; yaml = p.yaml } ∷ engine_rows rows

-- ListEnabledPoliciesForEngine
unfoldable pub list_enabled_policies_for_engine : List Policy → Result DbError (List EngineRow)
unfolding list_enabled_policies
list_enabled_policies_for_engine rows = ok (engine_rows (list_enabled_policies rows))

-- ListAllPolicies
unfoldable pub list_all_policies : List Policy → List Policy
unfolding order_by_name
list_all_policies rows = order_by_name rows

unfoldable pub without_id : String → List Policy → List Policy
without_id id [] = []
without_id id (p ∷ rows) = let rest = without_id id rows in if p.id == id then rest else p ∷ rest

-- DeletePolicy
unfoldable pub delete_policy : String → List Policy → Result DbError (List Policy)
unfolding without_id
delete_policy id rows = if any (has_id id) rows then ok (without_id id rows) else err not_found

unfoldable pub mark_enabled : ℕ → String → Bool → List Policy → List Policy
mark_enabled now id enabled [] = []
mark_enabled now id enabled (p ∷ rows) =
    let rest = mark_enabled now id enabled rows in
    if p.id == id then record p { enabled = enabled; updated_at = now } ∷ rest else p ∷ rest

-- SetEnabled
unfoldable pub set_enabled : ℕ → String → Bool → List Policy → Result DbError (List Policy)
unfolding mark_enabled
set_enabled now id enabled rows =
    if any (has_id id) rows then ok (mark_enabled now id enabled rows) else err not_found

-- countPolicies
abbrev pub count_policies : List Policy → ℕ
count_policies rows = length rows

-- the row of a default rule; `ids` are the values of uuid.NewString in turn
abbrev pub seeded : (ℕ → String) → ℕ → ℕ → Rule → String → Policy
seeded ids now i r yaml = record {
  id = ids i;
  name = r.name;
  yaml = yaml;
  enabled = true;
  created_at = now;
  updated_at = now;
}

-- `encode` is yaml.Marshal
module _ (encode : Rule → Result DbError String) (ids : ℕ → String) (now : ℕ) where
  -- the loop over DefaultRules: what was inserted before an error stays
  unfoldable pub seed_rules : ℕ → List Rule → List Policy → List Policy × Result DbError (Unit {0})
  unfolding upsert_policy
  seed_rules i [] rows = (rows, ok tt)
  seed_rules i (r ∷ rules) rows = elim (encode r) [
    | err e ↦ (rows, err e)
    | ok yaml ↦ elim (upsert_policy now (seeded ids now i r yaml) rows) [
      | err e ↦ (rows, err e)
      | ok rows' ↦ seed_rules (suc i) rules rows'
    ]
  ]

  -- SeedDefaultPolicies
  unfoldable pub seed_default_policies : List Policy → List Policy × Result DbError (Unit {0})
  unfolding seed_rules
  seed_default_policies rows =
      if ltb 0 (count_policies rows) then (rows, ok tt) else seed_rules 0 default_rules rows
