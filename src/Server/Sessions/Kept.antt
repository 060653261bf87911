-- ===== src/Server/Sessions/Kept.antt =====
-- What the requests on sessions leave of a session that a scheduled task is for.
use kubernetes_agent.Base.{
  ℕ, suc, String, Bool, true, false, List, [], ◌∷◌, none, some, ok, ◌≡◌, refl, subst, ap, ◌∙◌, map,
  any, any-append, length, ltb, arith, inl, inr, Bool-cases, Result-cases, ◌==◌, ◌||◌, eq_iff,
  if◌then◌else◌,
}
use kubernetes_agent.Text.{is_blank}
use kubernetes_agent.Store.Messages.{SessionRow, has_session, list_messages_by_session}
use kubernetes_agent.Store.Sessions.{
  SessionTables, create_session, session_with, update_session_title, delete_where, delete_session,
  delete_sessions_without_scheduled_tasks,
}
use kubernetes_agent.Store.Sessions.Left.{any-sessions_left, list-messages_left, any-set_title}
use kubernetes_agent.Scheduler.Tasks.{ScheduledTask, insert_latest, tasks_of}
use kubernetes_agent.Server.Sessions.{
  SessionService, with_tables, with_sessions, CreateSessionRequest, session_row, session_of,
  create_session_handler, renamed, put_session_handler, is_live, delete_session_handler,
  bulk_delete_handler, SessionRequest, create, rename, delete, bulk_delete, serve_session,
}

-- a task for the session
abbrev pub is_for : String → ScheduledTask → Bool
is_for id t = t.session_id == id

any-map-session_of :
    (id : String) (tasks : List ScheduledTask)
    → any (λ b. b == id) (map session_of tasks) ≡ any (is_for id) tasks
any-map-session_of id [] = refl
any-map-session_of id (t ∷ tasks) = ap (λ r. t.session_id == id || r) (any-map-session_of id tasks)

length-insert_latest :
    (t : ScheduledTask) (rows : List ScheduledTask)
    → length (insert_latest t rows) ≡ suc (length rows)
unfolding insert_latest
length-insert_latest t [] = refl
length-insert_latest t (x ∷ rows) = ground (arith, length-insert_latest t rows)

tasks_of-is_for :
    (id : String) (tasks : List ScheduledTask)
    → any (is_for id) tasks ≡ true
    → ltb 0 (length (tasks_of id tasks)) ≡ true
unfolding tasks_of
tasks_of-is_for id [] h = cc
tasks_of-is_for id (t ∷ tasks) h =
    ground (arith, h, length-insert_latest t (tasks_of id tasks), tasks_of-is_for id tasks)

-- the session is there, with the messages that it had
pub record IsKept (id : String) (s s' : SessionService) : Type 0 where
  pub there : any (has_session id) s'.tables.sessions ≡ true
  pub messages :
      (list_messages_by_session id s'.tables.messages
        ≡ list_messages_by_session id s.tables.messages)

module _ (id : String) (s : SessionService) where
  -- what a deletion that spares the session leaves
  delete_where-IsKept :
      (gone : String → Bool)
      → gone id ≡ false
      → any (has_session id) s.tables.sessions ≡ true
      → IsKept id s (with_tables s (delete_where gone s.tables).1)
  unfolding delete_where
  delete_where-IsKept gone keep h = record {
    there = any-sessions_left gone id s.tables.sessions keep h;
    messages = list-messages_left gone id s.tables.messages keep;
  }

  with_sessions-IsKept :
      (rows : List SessionRow)
      → any (has_session id) rows ≡ true
      → IsKept id s (with_sessions s rows)
  with_sessions-IsKept rows h = record { there = h; messages = refl }

  same-IsKept : any (has_session id) s.tables.sessions ≡ true → IsKept id s s
  same-IsKept h = record { there = h; messages = refl }

  create_session-there :
      (now : ℕ) (row : SessionRow) (rows : List SessionRow)
      → any (has_session id) s.tables.sessions ≡ true
      → create_session now s.clusters row s.tables.sessions ≡ ok rows
      → any (has_session id) rows ≡ true
  unfolding create_session
  create_session-there now row rows h e = ground (
    arith,
    h,
    e,
    any-append (has_session id) s.tables.sessions
        (record row { created_at = now; updated_at = now } ∷ []),
  )

  create_session_handler-IsKept :
      (now : ℕ) (fresh : String) (r : CreateSessionRequest)
      → any (has_session id) s.tables.sessions ≡ true
      → IsKept id s (create_session_handler now fresh r s).1
  unfolding create_session_handler
  create_session_handler-IsKept now fresh r h =
      elim (Result-cases (create_session now s.clusters (session_row fresh r) s.tables.sessions)) [
        | inl (e, g) ↦
            let out : (create_session_handler now fresh r s).1 ≡ s = ground (arith, g) in
            rw out (same-IsKept h)
        | inr (rows, g) ↦
            let out : (create_session_handler now fresh r s).1 ≡ with_sessions s rows =
              ground (arith, g) in
            rw out
              (with_sessions-IsKept rows (create_session-there now (session_row fresh r) rows h g))
      ]

  renamed-IsKept :
      (other : String) (rows : List SessionRow)
      → any (has_session id) rows ≡ true
      → IsKept id s (renamed other rows s).1
  unfolding renamed
  renamed-IsKept other rows h =
      let out : (renamed other rows s).1 ≡ with_sessions s rows =
        elim (Result-cases (session_with other rows)) [
          | inl (e, g) ↦ ground (arith, g)
          | inr (row, g) ↦ ground (arith, g)
        ] in
      rw out (with_sessions-IsKept rows h)

  put_session_handler-IsKept :
      (now : ℕ) (other title : String)
      → any (has_session id) s.tables.sessions ≡ true
      → IsKept id s (put_session_handler now other title s).1
  unfolding put_session_handler update_session_title
  put_session_handler-IsKept now other title h = elim (Bool-cases (is_blank title)) [
    | inl e ↦ rw e (same-IsKept h)
    | inr e ↦ elim (Bool-cases (any (has_session other) s.tables.sessions)) [
      | inl g ↦
          rw (e, g)
            (renamed-IsKept other _ (any-set_title now other id title s.tables.sessions ∙ h))
      | inr g ↦ rw (e, g) (same-IsKept h)
    ]
  ]

  delete_session_handler-bound :
      any (is_for id) s.tasks ≡ true → (delete_session_handler id s).1 ≡ s
  unfolding delete_session_handler
  delete_session_handler-bound bound =
      let some_task = tasks_of-is_for id s.tasks bound in
      elim (Bool-cases (is_live id s.live)) [
        | inl e ↦ ground (arith, e)
        | inr e ↦ ground (arith, e, some_task)
      ]

  delete_session-other :
      (other : String) (n : ℕ) (t : SessionTables)
      → (id == other) ≡ false
      → any (has_session id) s.tables.sessions ≡ true
      → delete_session other s.tables ≡ ok (n, t)
      → IsKept id s (with_tables s t)
  unfolding delete_session
  delete_session-other other n t ne h e =
      let gone : (delete_where (λ x. x == other) s.tables).1 ≡ t = ground (arith, e) in
      rw (← gone) (delete_where-IsKept (λ x. x == other) ne h)

  delete_session_handler-other :
      (other : String)
      → (id == other) ≡ false
      → any (has_session id) s.tables.sessions ≡ true
      → IsKept id s (delete_session_handler other s).1
  unfolding delete_session_handler
  delete_session_handler-other other ne h = elim (Bool-cases (is_live other s.live)) [
    | inl e ↦ rw e (same-IsKept h)
    | inr e ↦ elim (Bool-cases (ltb 0 (length (tasks_of other s.tasks)))) [
      | inl g ↦ rw (e, g) (same-IsKept h)
      | inr g ↦ elim (Result-cases (delete_session other s.tables)) [
        | inl (d, k) ↦
            let out : (delete_session_handler other s).1 ≡ s = ground (arith, e, g, k) in
            rw out (same-IsKept h)
        | inr ((n, t), k) ↦
            let out : (delete_session_handler other s).1 ≡ with_tables s t =
              ground (arith, e, g, k) in
            rw out (delete_session-other other n t ne h k)
      ]
    ]
  ]

  delete_session_handler-IsKept :
      (other : String)
      → any (is_for id) s.tasks ≡ true
      → any (has_session id) s.tables.sessions ≡ true
      → IsKept id s (delete_session_handler other s).1
  delete_session_handler-IsKept other bound h = elim (Bool-cases (id == other)) [
    | inl e ↦
        let same : id ≡ other = (eq_iff id other).0 e in
        subst (λ x. IsKept id s (delete_session_handler x s).1) same
          (rw (delete_session_handler-bound bound) (same-IsKept h))
    | inr e ↦ delete_session_handler-other other e h
  ]

  bulk_delete_handler-IsKept :
      any (is_for id) s.tasks ≡ true
      → any (has_session id) s.tables.sessions ≡ true
      → IsKept id s (bulk_delete_handler s).1
  unfolding bulk_delete_handler delete_sessions_without_scheduled_tasks
  bulk_delete_handler-IsKept bound h =
      delete_where-IsKept (λ x. if any (λ b. b == x) (map session_of s.tasks) then false else true)
        (rw (any-map-session_of id s.tasks, bound)) h

-- A session that a scheduled task is for is in the table after any request to create, rename or
-- delete sessions, also in bulk, if it was before, with the messages that it had.
pub serve_session-IsKept :
    (now : ℕ) (fresh id : String) (r : SessionRequest) (s : SessionService)
    → any (is_for id) s.tasks ≡ true
    → any (has_session id) s.tables.sessions ≡ true
    → IsKept id s (serve_session now fresh r s).1
unfolding serve_session
serve_session-IsKept now fresh id (create none) s bound h = same-IsKept id s h
serve_session-IsKept now fresh id (create (some r)) s bound h =
    create_session_handler-IsKept id s now fresh r h
serve_session-IsKept now fresh id (rename other none) s bound h = same-IsKept id s h
serve_session-IsKept now fresh id (rename other (some title)) s bound h =
    put_session_handler-IsKept id s now other title h
serve_session-IsKept now fresh id (delete other) s bound h =
    delete_session_handler-IsKept id s other bound h
serve_session-IsKept now fresh id bulk_delete s bound h = bulk_delete_handler-IsKept id s bound h
