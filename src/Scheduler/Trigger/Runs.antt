-- ===== src/Scheduler/Trigger/Runs.antt =====
-- How a trigger leaves its row in the table of runs.
use kubernetes_agent.Base.{
  ℕ, String, List, [], ◌∷◌, Option, none, some, ◌≡◌, refl, ◌⊎◌, inl, inr, arith, Bool-cases,
  Result-cases, Result, ok, err, All, ◌==◌, if◌then◌else◌,
}
use kubernetes_agent.Store.Failure.{DbError}
use kubernetes_agent.Store.Messages.{SessionRow, Tables, batch_insert_messages}
use kubernetes_agent.Scheduler.Tasks.{
  ScheduledTask, ScheduledRun, Db, update_scheduled_task, set_run, update_scheduled_run,
  create_scheduled_run, get_session,
}
use kubernetes_agent.Scheduler.Trigger.{
  Fresh, TriggerError, store_error, run_error, started, scheduled_message, with_tables, cluster_of,
  fail_run, end_run, run_task, fire, trigger, then_stats, update_task_stats,
}

-- the statuses of the rows with an id
unfoldable pub run_statuses : String → List ScheduledRun → List String
run_statuses id [] = []
run_statuses id (r ∷ rows) =
    let rest = run_statuses id rows in if r.id == id then r.status ∷ rest else rest

set_run-statuses :
    (id status : String) (error : Option String) (rows : List ScheduledRun)
    → All (λ s. s ≡ status) (run_statuses id (set_run id status error rows))
unfolding set_run run_statuses
set_run-statuses id status error [] = tt
set_run-statuses id status error (r ∷ rows) =
    let ih = set_run-statuses id status error rows in
    elim (Bool-cases (r.id == id)) [ inl h ↦ rw (h, h) (refl, ih) | inr h ↦ rw (h, h) ih ]

-- an outcome whose error, or its absence, is what the rows of the run say
pub data IsEnded (id : String) : Result TriggerError (Unit {0}) × Db → Type 0 where
  succeeded :
      (db : Db) → All (λ s. s ≡ "success") (run_statuses id db.runs) → IsEnded id (ok tt, db)
  failed :
      (e : TriggerError) (db : Db)
      → All (λ s. s ≡ "failed") (run_statuses id db.runs)
      → IsEnded id (err e, db)

module _ (show : DbError → String) (run : String → String → String → Db → Option String × Db)
    (next : String → ℕ → Option ℕ) where
  fail_run-IsEnded :
      (w : Fresh) (e : DbError) (db : Db) → IsEnded w.run_id (fail_run show run next w e db)
  unfolding fail_run update_scheduled_run
  fail_run-IsEnded w e db =
      failed (store_error e) _ (set_run-statuses w.run_id "failed" (some (show e)) db.runs)

  end_run-IsEnded :
      (w : Fresh) (r : Option String × Db) → IsEnded w.run_id (end_run show run next w r)
  unfolding end_run update_scheduled_run
  end_run-IsEnded w (some e, db) =
      failed (run_error e) _ (set_run-statuses w.run_id "failed" (some e) db.runs)
  end_run-IsEnded w (none, db) = succeeded _ (set_run-statuses w.run_id "success" none db.runs)

  run_task-not_inserted :
      (w : Fresh) (t : ScheduledTask) (db : Db) (e : DbError)
      → batch_insert_messages w.stored (scheduled_message w t ∷ []) db.tables ≡ err e
      → run_task show run next w t db ≡ fail_run show run next w e db
  unfolding run_task
  run_task-not_inserted w t db e h = ground (arith, h)

  run_task-no_session :
      (w : Fresh) (t : ScheduledTask) (db : Db) (tables : Tables) (e : DbError)
      → batch_insert_messages w.stored (scheduled_message w t ∷ []) db.tables ≡ ok tables
      → get_session t.session_id (with_tables db tables) ≡ err e
      → run_task show run next w t db ≡ fail_run show run next w e (with_tables db tables)
  unfolding run_task
  run_task-no_session w t db tables e h g = ground (arith, h, g)

  run_task-session :
      (w : Fresh) (t : ScheduledTask) (db : Db) (tables : Tables) (s : SessionRow)
      → batch_insert_messages w.stored (scheduled_message w t ∷ []) db.tables ≡ ok tables
      → get_session t.session_id (with_tables db tables) ≡ ok s
      → run_task show run next w t db
        ≡ end_run show run next w
            (run t.session_id (cluster_of s.cluster_id) t.prompt (with_tables db tables))
  unfolding run_task
  run_task-session w t db tables s h g = ground (arith, h, g)

  run_task-IsEnded :
      (w : Fresh) (t : ScheduledTask) (db : Db) → IsEnded w.run_id (run_task show run next w t db)
  run_task-IsEnded w t db =
      elim (Result-cases (batch_insert_messages w.stored (scheduled_message w t ∷ []) db.tables)) [
        | inl (e, h) ↦ rw (run_task-not_inserted w t db e h) (fail_run-IsEnded w e db)
        | inr (tables, h) ↦ elim (Result-cases (get_session t.session_id (with_tables db tables))) [
          | inl (e, g) ↦
              rw (run_task-no_session w t db tables e h g)
                (fail_run-IsEnded w e (with_tables db tables))
          | inr (s, g) ↦ rw (run_task-session w t db tables s h g) (end_run-IsEnded w _)
        ]
      ]

  then_stats-IsEnded :
      (w : Fresh) (t : ScheduledTask) (r : Result TriggerError (Unit {0}) × Db)
      → IsEnded w.run_id r
      → IsEnded w.run_id (then_stats show run next (update_task_stats show run next w t) r)
  unfolding update_task_stats update_scheduled_task
  then_stats-IsEnded w t _ (succeeded db h) = succeeded _ h
  then_stats-IsEnded w t _ (failed e db h) = failed e db h

  trigger-not_recorded :
      (w : Fresh) (t : ScheduledTask) (db : Db) (e : DbError)
      → create_scheduled_run (started w t) db ≡ err e
      → trigger show run next w t db ≡ (err (store_error e), db)
  unfolding trigger fire
  trigger-not_recorded w t db e h = ground (arith, h)

  trigger-recorded :
      (w : Fresh) (t : ScheduledTask) (db db' : Db)
      → create_scheduled_run (started w t) db ≡ ok db'
      → trigger show run next w t db
        ≡ then_stats show run next
            (update_task_stats show run next w t)
            (run_task show run next w t db')
  unfolding trigger fire
  trigger-recorded w t db db' h = ground (arith, h)

  -- A trigger whose run cannot be recorded changes nothing. Any other leaves no row of its run as
  -- running: the rows say success if the trigger returns no error, and failed if it returns one,
  -- whatever the agent's run did to the database.
  pub trigger-IsEnded :
      (w : Fresh) (t : ScheduledTask) (db : Db)
      → ((e : DbError) × (create_scheduled_run (started w t) db ≡ err e)
          × (trigger show run next w t db ≡ (err (store_error e), db)))
        ⊎ IsEnded w.run_id (trigger show run next w t db)
  trigger-IsEnded w t db = elim (Result-cases (create_scheduled_run (started w t) db)) [
    | inl (e, h) ↦ inl (e, h, trigger-not_recorded w t db e h)
    | inr (db', h) ↦
        let ended = then_stats-IsEnded w t _ (run_task-IsEnded w t db') in
        inr (rw (trigger-recorded w t db db' h) ended)
  ]
