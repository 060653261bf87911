-- ===== src/Scheduler/Trigger/Once.antt =====
-- One-shot tasks in checks that overlap.
use kubernetes_agent.Base.{
  ℕ, String, Bool, true, false, Option, some, ◌≡◌, ok, ◌==◌, if◌then◌else◌, List,
}
use kubernetes_agent.Store.Failure.{DbError}
use kubernetes_agent.Store.Messages.{Tables}
use kubernetes_agent.Scheduler.Tasks.{ScheduledTask, ScheduledRun, Db}
use kubernetes_agent.Scheduler.Trigger.{Fresh, update_task_stats, after_trigger}

module _ (show : DbError → String) (run : String → String → String → Db → Option String × Db)
    (next : String → ℕ → Option ℕ) where
  -- The writes of checks of any tasks, in any order, between two databases; `ended` says whether a
  -- check of the one-shot task `id` has ended in success among them. `rows` is what a trigger and
  -- its run write beside the tasks.
  pub data Writes (id : String) (at : ℕ) (before : Db) : Bool → Db → Type 0 where
    no_writes : Writes id at before false before
    rows :
        {ended : Bool} {db : Db} (tables : Tables) (runs : List ScheduledRun)
        → Writes id at before ended db
        → Writes id at before ended (record db { tables = tables; runs = runs })
    stats :
        {ended : Bool} {db : Db} (w : Fresh) (t : ScheduledTask)
        → Writes id at before ended db
        → Writes id at before ended (update_task_stats show run next w t db)
    ends :
        {ended : Bool} {db : Db} (t : ScheduledTask)
        → (t.id ≡ id → t.once_at ≡ some at)
        → Writes id at before ended db
        → Writes id at before
            (if t.id == id then true else ended)
            (after_trigger show run next t (ok tt, db))
