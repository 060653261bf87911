-- ===== src/Scheduler/Entries.antt =====
-- ScheduleTask, UnscheduleTask and restore of internal/scheduler/scheduler.go: the jobs that the cron
-- library holds and the map from their ids to the tasks, which the two keep together.
use kubernetes_agent.Base.{
  ℕ, suc, ◌+◌, String, Bool, true, false, List, [], ◌∷◌, ◌++◌, Option, none, some, ◌≡◌, refl, ◌⊎◌,
  inl, inr, any, arith, nat_eq, Bool-cases, ◌==◌, eq_refl, if◌then◌else◌,
}
use kubernetes_agent.Text.{has_prefix}
use kubernetes_agent.Scheduler.Tasks.{ScheduledTask, Db, get_enabled_scheduled_tasks}

-- a job of the cron library, which checks its task at each time of the expression
pub record Entry : Type 0 where
  pub id : ℕ
  pub spec : String
  pub task_id : String

abbrev pub has_entry : ℕ → Entry → Bool
has_entry n e = nat_eq e.id n

abbrev pub of_task : String → Entry → Bool
of_task id e = e.task_id == id

-- the expression with a field for the seconds
unfoldable pub spec_of : Option String → String
spec_of none = "@every 1s"
spec_of (some expr) = if has_prefix expr "@" then expr else String.◌∷◌ "0" (String.◌∷◌ " " expr)

-- entries[entryID] = taskID
unfoldable pub put : Entry → List Entry → List Entry
put e [] = e ∷ []
put e (x ∷ xs) = let rest = put e xs in if nat_eq x.id e.id then e ∷ xs else x ∷ rest

-- `add_func` is AddFunc of the cron library: the id of the new job, if it reads the expression
module _ (add_func : String → List Entry → Option ℕ) where
  abbrev pub added : ScheduledTask → Option ℕ → List Entry → List Entry
  added t none entries = entries
  added t (some n) entries =
      put (record { id = n; spec = spec_of t.cron_expr; task_id = t.id }) entries

  -- ScheduleTask
  unfoldable pub schedule_task : ScheduledTask → List Entry → List Entry
  unfolding put spec_of
  schedule_task t entries =
      if t.enabled then added t (add_func (spec_of t.cron_expr) entries) entries else entries

  unfoldable pub schedule_all : List ScheduledTask → List Entry → List Entry
  unfolding schedule_task
  schedule_all [] entries = entries
  schedule_all (t ∷ tasks) entries = schedule_all tasks (schedule_task t entries)

  -- restore
  unfoldable pub restore : Db → List Entry → List Entry
  unfolding schedule_all get_enabled_scheduled_tasks
  restore db entries = schedule_all (get_enabled_scheduled_tasks db) entries

-- UnscheduleTask as a relation: the first of the task's jobs that the iteration over the map meets, in whatever
-- order, is removed, and the loop ends
pub data Unscheduled (id : String) : List Entry → List Entry → Type 0 where
  removed :
      (before : List Entry) (e : Entry) (after : List Entry)
      → of_task id e ≡ true
      → Unscheduled id (before ++ e ∷ after) (before ++ after)
  absent :
      (entries : List Entry) → any (of_task id) entries ≡ false → Unscheduled id entries entries

-- the number of the task's jobs
unfoldable pub jobs : String → List Entry → ℕ
jobs id [] = 0
jobs id (e ∷ entries) = let rest = jobs id entries in if of_task id e then suc rest else rest

jobs-append : (id : String) (xs ys : List Entry) → jobs id (xs ++ ys) ≡ jobs id xs + jobs id ys
unfolding jobs
jobs-append id [] ys = omega arith
jobs-append id (x ∷ xs) ys = ground (arith, jobs-append id xs ys)

jobs-absent : (id : String) (xs : List Entry) → any (of_task id) xs ≡ false → jobs id xs ≡ 0
unfolding jobs
jobs-absent id [] h = refl
jobs-absent id (x ∷ xs) h = elim (Bool-cases (of_task id x)) [
  | inl e ↦ ground (arith, e, h)
  | inr e ↦ ground (arith, e, h, jobs-absent id xs)
]

jobs-here :
    (id : String) (e : Entry) (ys : List Entry)
    → of_task id e ≡ true
    → jobs id (e ∷ ys) ≡ suc (jobs id ys)
unfolding jobs
jobs-here id e ys h = ground (arith, h)

jobs-put :
    (id : String) (e : Entry) (xs : List Entry)
    → of_task id e ≡ true
    → any (has_entry e.id) xs ≡ false
    → jobs id (put e xs) ≡ suc (jobs id xs)
unfolding jobs put
jobs-put id e [] h fresh = ground (arith, h)
jobs-put id e (x ∷ xs) h fresh = elim (Bool-cases (has_entry e.id x)) [
  | inl same ↦ ground (arith, h, fresh, same)
  | inr other ↦ ground (arith, h, fresh, other, jobs-put id e xs h)
]

module _ (add_func : String → List Entry → Option ℕ) where
  -- the library numbers its jobs anew
  pub jobs-schedule_task :
      (t : ScheduledTask) (n : ℕ) (entries : List Entry)
      → t.enabled ≡ true
      → add_func (spec_of t.cron_expr) entries ≡ some n
      → any (has_entry n) entries ≡ false
      → jobs t.id (schedule_task add_func t entries) ≡ suc (jobs t.id entries)
  unfolding schedule_task
  jobs-schedule_task t n entries on h fresh =
      let e : Entry = record { id = n; spec = spec_of t.cron_expr; task_id = t.id } in
      let scheduled : schedule_task add_func t entries ≡ put e entries = ground (arith, on, h) in
      rw scheduled (jobs-put t.id e entries (eq_refl t.id) fresh)

-- an UnscheduleTask takes one job of the task away, if it has one
pub jobs-Unscheduled :
    (id : String) (before after : List Entry)
    → Unscheduled id before after
    → (jobs id before ≡ suc (jobs id after)) ⊎ ((jobs id before ≡ 0) × (after ≡ before))
jobs-Unscheduled id _ _ (removed xs e ys h) =
    inl (omega (arith, jobs-append id xs (e ∷ ys), jobs-append id xs ys, jobs-here id e ys h))
jobs-Unscheduled id _ _ (absent xs h) = inr (jobs-absent id xs h, refl)
