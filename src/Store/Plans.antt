-- ===== src/Store/Plans.antt =====
-- internal/store/plans.go. The columns that hold JSON keep the text.
use kubernetes_agent.Base.{
  ℕ, String, Bool, List, [], ◌∷◌, ◌++◌, Option, some, Result, ok, err, any, ◌==◌, if◌then◌else◌,
}
use kubernetes_agent.Store.Failure.{DbError, not_found, constraint}

pub record Plan : Type 0 where
  pub id : String
  pub session_id : String
  pub ops_json : String
  pub diffs_json : String
  pub risk : String
  pub status : String
  pub created_at : ℕ
  pub executed_at : Option ℕ

-- the status values
abbrev pub pending : String
pending = "pending"

abbrev pub executed : String
executed = "executed"

abbrev pub is_plan : String → Plan → Bool
is_plan id p = p.id == id

-- CreatePlan; `sessions` are the ids that the foreign key accepts
unfoldable pub create_plan : ℕ → List String → Plan → List Plan → Result DbError (List Plan)
create_plan now sessions p rows =
    if any (λ s. s == p.session_id) sessions
    then (if any (is_plan p.id) rows
        then err constraint
        else ok (rows ++ record p { created_at = now } ∷ []))
    else err constraint

-- GetPlan
unfoldable pub get_plan : String → List Plan → Result DbError Plan
get_plan id [] = err not_found
get_plan id (p ∷ rows) = let rest = get_plan id rows in if p.id == id then ok p else rest

abbrev set_status : String → Option ℕ → Plan → Plan
set_status status at p = record p { status = status; executed_at = at }

unfoldable pub update_plans : String → (Plan → Plan) → List Plan → List Plan
update_plans id f [] = []
update_plans id f (p ∷ rows) =
    let rest = update_plans id f rows in if p.id == id then f p ∷ rest else p ∷ rest

-- UpdatePlanStatus
unfoldable pub update_plan_status : String → String → List Plan → Result DbError (List Plan)
unfolding update_plans
update_plan_status id status rows =
    if any (is_plan id) rows
    then ok (update_plans id (λ p. record p { status = status }) rows)
    else err not_found

-- MarkExecuted
unfoldable pub mark_executed : ℕ → String → List Plan → Result DbError (List Plan)
unfolding update_plans
mark_executed now id rows =
    if any (is_plan id) rows
    then ok (update_plans id (set_status executed (some now)) rows)
    else err not_found
