-- ===== src/Scheduler/Handlers/Jobs.antt =====
-- The jobs of a task over the update and the deletion of its row.
use kubernetes_agent.Base.{
  ℕ, suc, String, Bool, true, false, List, Option, some, ◌≡◌, ◌≢◌, refl, subst, ◌⊎◌, inl, inr, any,
  arith, ok, ◌==◌, eq_iff,
}
use kubernetes_agent.Scheduler.Tasks.{
  ScheduledTask, Db, get_scheduled_task, update_scheduled_task, task_with-id,
}
use kubernetes_agent.Scheduler.Entries.{
  Entry, has_entry, spec_of, schedule_task, jobs, jobs-schedule_task, jobs-Unscheduled,
}
use kubernetes_agent.Scheduler.Handlers.{
  Reply, UpdateRequest, updated, Stopped, stopped, enabling, unsaid, finish_update, Updated, no_id,
  handled, Deleted, deleted,
}

Stopped-kept :
    (id : String) (o : Option Bool) (before after : List Entry)
    → Stopped id o before after
    → o ≢ some false
    → after ≡ before
Stopped-kept id _ _ _ (stopped u) h = elim (h refl) [ ]
Stopped-kept id _ _ _ (enabling es) h = refl
Stopped-kept id _ _ _ (unsaid es) h = refl

module _ (add_func : String → List Entry → Option ℕ) where
  finish_update-enabled :
      (id : String) (r : UpdateRequest) (db : Db) (entries : List Entry) (t : ScheduledTask)
      → get_scheduled_task id (update_scheduled_task id (updated r) db) ≡ ok t
      → t.enabled ≡ true
      → (finish_update add_func id r db entries).2 ≡ schedule_task add_func t entries
  unfolding finish_update
  finish_update-enabled id r db entries t h on = ground (arith, h, on)

  get_scheduled_task-id :
      (id : String) (db : Db) (t : ScheduledTask) → get_scheduled_task id db ≡ ok t → t.id ≡ id
  unfolding get_scheduled_task
  get_scheduled_task-id id db t h = (eq_iff t.id id).0 (task_with-id id db.tasks t h)

  jobs-Updated :
      (id : String) (r : UpdateRequest) (db : Db) (entries : List Entry) (t : ScheduledTask) (n : ℕ)
      → (id == "") ≡ false
      → r.enabled ≢ some false
      → get_scheduled_task id (update_scheduled_task id (updated r) db) ≡ ok t
      → t.enabled ≡ true
      → add_func (spec_of t.cron_expr) entries ≡ some n
      → any (has_entry n) entries ≡ false
      → (out : Reply × Db × List Entry) → Updated add_func id (some r) db entries out
      → jobs id out.2 ≡ suc (jobs id entries)
  jobs-Updated id r db entries t n named keeps h on add fresh _ (no_id _ _ _ e) = cc
  jobs-Updated id r db entries t n named keeps h on add fresh _ (handled _ _ _ kept e st) =
      let same : kept ≡ entries = Stopped-kept id r.enabled entries kept st keeps in
      let more : jobs t.id (schedule_task add_func t entries) ≡ suc (jobs t.id entries) =
        jobs-schedule_task add_func t n entries on add fresh in
      let more' : jobs id (schedule_task add_func t entries) ≡ suc (jobs id entries) =
        subst (λ i. jobs i (schedule_task add_func t entries) ≡ suc (jobs i entries))
          (get_scheduled_task-id id _ t h) more in
      rw (same, finish_update-enabled id r db entries t h on) more'

  jobs-Deleted :
      (id : String) (db : Db) (entries : List Entry)
      → (id == "") ≡ false
      → (out : Reply × Db × List Entry) → Deleted id db entries out
      → (jobs id entries ≡ suc (jobs id out.2)) ⊎ (jobs id entries ≡ 0)
  jobs-Deleted id db entries named _ (no_id _ _ e) = cc
  jobs-Deleted id db entries named _ (deleted _ _ kept e u) =
      elim (jobs-Unscheduled id entries kept u) [ inl h ↦ inl h | inr (z, same) ↦ inr z ]

  -- An update that does not disable a task, where the task is enabled after it and the cron library
  -- takes its expression under a new id, gives the task one job more, whether or not it had one. A
  -- deletion of the task after it then leaves as many jobs of it as there were before the update.
  pub jobs-Updated-Deleted :
      (id : String) (r : UpdateRequest) (db : Db) (entries : List Entry) (t : ScheduledTask) (n : ℕ)
      → (id == "") ≡ false
      → r.enabled ≢ some false
      → get_scheduled_task id (update_scheduled_task id (updated r) db) ≡ ok t
      → t.enabled ≡ true
      → add_func (spec_of t.cron_expr) entries ≡ some n
      → any (has_entry n) entries ≡ false
      → (out out' : Reply × Db × List Entry) → Updated add_func id (some r) db entries out
      → Deleted id out.1 out.2 out'
      → (jobs id out.2 ≡ suc (jobs id entries)) × (jobs id out'.2 ≡ jobs id entries)
  jobs-Updated-Deleted id r db entries t n named keeps h on add fresh out out' u d =
      let more = jobs-Updated id r db entries t n named keeps h on add fresh out u in
      elim (jobs-Deleted id out.1 out.2 named out' d) [
        | inl fewer ↦ (more, omega (arith, more, fewer))
        | inr zero ↦ (more, omega (arith, more, zero))
      ]
