-- ===== src/Scheduler/Trigger/Rows.antt =====
-- The row of a task under updates of the tasks.
use kubernetes_agent.Base.{
  ℕ, String, Bool, true, false, List, [], ◌∷◌, Option, none, some, ◌≡◌, refl, sym, ap, ◌∙◌, inl,
  inr, arith, Bool-cases, ok, ◌==◌, eq_iff, if◌then◌else◌,
}
use kubernetes_agent.Scheduler.Tasks.{
  ScheduledTask, Db, task_with, task_with-id, set_tasks, update_scheduled_task,
}
use kubernetes_agent.Scheduler.Trigger.{disabled, with_next}

-- the row of a task in the course of its checks
pub record Row (id : String) (at : Option ℕ) (on : Bool) (db : Db) : Type 0 where
  pub task : ScheduledTask
  pub found : task_with id db.tasks ≡ ok task
  pub enabled : task.enabled ≡ on
  pub once_at : task.once_at ≡ at

set_tasks-found :
    (id i : String) (f : ScheduledTask → ScheduledTask)
    → ((row : ScheduledTask) → (f row).id ≡ row.id)
    → (rows : List ScheduledTask) (t : ScheduledTask) → task_with id rows ≡ ok t
    → task_with id (set_tasks i f rows) ≡ ok (if t.id == i then f t else t)
unfolding task_with set_tasks
set_tasks-found id i f same [] t h = cc h
set_tasks-found id i f same (row ∷ rows) t h =
    let rest = set_tasks-found id i f same rows t in
    elim (Bool-cases (row.id == id)) [
      | inl e ↦ elim (Bool-cases (row.id == i)) [
        | inl g ↦ ground (arith, same row, e, g, h)
        | inr g ↦ ground (arith, e, g, h)
      ]
      | inr e ↦ elim (Bool-cases (row.id == i)) [
        | inl g ↦ ground (arith, same row, e, g, h, rest)
        | inr g ↦ ground (arith, e, g, h, rest)
      ]
    ]

pub update-Row :
    (id : String) (at : Option ℕ) (on : Bool) (i : String) (f : ScheduledTask → ScheduledTask)
    (db : Db)
    → ((row : ScheduledTask) → (f row).id ≡ row.id)
    → ((row : ScheduledTask) → (f row).enabled ≡ row.enabled)
    → ((row : ScheduledTask) → (f row).once_at ≡ row.once_at)
    → Row id at on db
    → Row id at on (update_scheduled_task i f db)
unfolding update_scheduled_task
update-Row id at on i f db same on_same at_same r =
    let row = set_tasks-found id i f same db.tasks r.task r.found in
    elim (Bool-cases (r.task.id == i)) [
      | inl e ↦ record {
        task = f r.task;
        found = row ∙ ap (λ (b : Bool). ok (if b then f r.task else r.task)) e;
        enabled = on_same r.task ∙ r.enabled;
        once_at = at_same r.task ∙ r.once_at;
      }
      | inr e ↦ record {
        task = r.task;
        found = row ∙ ap (λ (b : Bool). ok (if b then f r.task else r.task)) e;
        enabled = r.enabled;
        once_at = r.once_at;
      }
    ]

pub disabled-Row :
    (id : String) (at : Option ℕ) (on : Bool) (i : String) (db : Db)
    → Row id at on db
    → Row id at (if i == id then false else on) (update_scheduled_task i disabled db)
unfolding update_scheduled_task
disabled-Row id at on i db r =
    let row = set_tasks-found id i disabled (λ t. refl) db.tasks r.task r.found in
    let own : r.task.id ≡ id = (eq_iff r.task.id id).0 (task_with-id id db.tasks r.task r.found) in
    elim (Bool-cases (i == id)) [
      | inl e ↦
          let hit : (r.task.id == i) ≡ true =
            (eq_iff r.task.id i).1 (own ∙ sym ((eq_iff i id).0 e)) in
          rw e (record {
            task = disabled r.task;
            found = row ∙ ap (λ (b : Bool). ok (if b then disabled r.task else r.task)) hit;
            enabled = refl;
            once_at = r.once_at;
          })
      | inr e ↦ elim (Bool-cases (r.task.id == i)) [
        | inl hit ↦
            absurd (ground (arith, e, (eq_iff i id).1 (sym ((eq_iff r.task.id i).0 hit) ∙ own)))
        | inr miss ↦ rw e (record {
          task = r.task;
          found = row ∙ ap (λ (b : Bool). ok (if b then disabled r.task else r.task)) miss;
          enabled = r.enabled;
          once_at = r.once_at;
        })
      ]
    ]

pub with_next-same :
    (n : Option ℕ) (row : ScheduledTask)
    → ((with_next n row).id ≡ row.id)
      × ((with_next n row).enabled ≡ row.enabled)
      × ((with_next n row).once_at ≡ row.once_at)
with_next-same none row = (refl, refl, refl)
with_next-same (some n) row = (refl, refl, refl)
