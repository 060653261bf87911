-- ===== src/Store/Sessions.antt =====
-- internal/store/sessions.go. A limit or an offset that is negative there is 0 here.
pub mod Left
use kubernetes_agent.Base.{
  ℕ, String, Bool, true, false, List, [], ◌∷◌, ◌++◌, Option, none, some, Result, ok, err, any, take,
  drop, length, ◌-◌, leb, nat_eq, ◌==◌, if◌then◌else◌,
}
use kubernetes_agent.Store.Failure.{DbError, not_found, constraint}
use kubernetes_agent.Store.Messages.{Message, SessionRow, has_session}
use kubernetes_agent.Store.Plans.{Plan}

abbrev pub knows : Option String → List String → Bool
knows none clusters = true
knows (some c) clusters = any (λ d. d == c) clusters

-- CreateSession; `clusters` are the ids that the foreign key accepts
unfoldable pub create_session :
    ℕ → List String → SessionRow → List SessionRow → Result DbError (List SessionRow)
create_session now clusters s rows =
    if any (has_session s.id) rows
    then err constraint
    else if knows s.cluster_id clusters
    then ok (rows ++ record s { created_at = now; updated_at = now } ∷ [])
    else err constraint

unfoldable pub session_with : String → List SessionRow → Result DbError SessionRow
session_with id [] = err not_found
session_with id (s ∷ rows) = let rest = session_with id rows in if s.id == id then ok s else rest

-- the columns that a list may be sorted by
pub data SortColumn : Type 0 where
  by_created by_updated by_title : SortColumn

-- allowedSort
unfoldable pub sort_column : String → Option SortColumn
sort_column s =
    if s == "created_at"
    then some by_created
    else if s == "updated_at"
    then some by_updated
    else if s == "title"
    then some by_title
    else none

-- the two orders: whether it is descending
unfoldable pub sort_order : String → Option Bool
sort_order s = if s == "asc" then some false else if s == "desc" then some true else none

pub data ListError : Type 0 where
  invalid_sort invalid_order : ListError

-- `like` and `title_le` are SQLite's LIKE with the pattern %q% and its order under NOCASE
module _ (like : String → String → Bool) (title_le : String → String → Bool) where
  unfoldable pub row_le : SortColumn → SessionRow → SessionRow → Bool
  row_le by_created a b = leb a.created_at b.created_at
  row_le by_updated a b = leb a.updated_at b.updated_at
  row_le by_title a b = title_le a.title b.title

  abbrev pub stands_before : SortColumn → Bool → SessionRow → SessionRow → Bool
  stands_before col descending a b = if descending then row_le col b a else row_le col a b

  -- ORDER BY
  unfoldable pub insert_sorted : SortColumn → Bool → SessionRow → List SessionRow → List SessionRow
  unfolding row_le
  insert_sorted col descending s [] = s ∷ []
  insert_sorted col descending s (x ∷ rows) =
      let rest = insert_sorted col descending s rows in
      if stands_before col descending s x then s ∷ x ∷ rows else x ∷ rest

  unfoldable pub sorted : SortColumn → Bool → List SessionRow → List SessionRow
  unfolding insert_sorted
  sorted col descending [] = []
  sorted col descending (s ∷ rows) = insert_sorted col descending s (sorted col descending rows)

  -- WHERE title LIKE, where there is a query
  abbrev pub is_match : String → SessionRow → Bool
  is_match q s = if q == "" then true else like q s.title

  unfoldable pub matching : String → List SessionRow → List SessionRow
  matching q [] = []
  matching q (s ∷ rows) = let rest = matching q rows in if is_match q s then s ∷ rest else rest

  abbrev pub or_hundred : ℕ → ℕ
  or_hundred limit = if nat_eq limit 0 then 100 else limit

  -- LIMIT and OFFSET of the sorted rows
  unfoldable pub page : String → SortColumn → Bool → ℕ → ℕ → List SessionRow → List SessionRow
  unfolding sorted matching
  page q col descending limit offset rows =
      take (or_hundred limit) (drop offset (sorted col descending (matching q rows)))

  -- ListSessionsFiltered
  unfoldable pub list_sessions_filtered :
      String → String → String → ℕ → ℕ → List SessionRow → Result ListError (List SessionRow)
  unfolding sort_column sort_order page
  list_sessions_filtered q sort order limit offset rows = elim (sort_column sort) [
    | none ↦ err invalid_sort
    | some col ↦ elim (sort_order order) [
      | none ↦ err invalid_order
      | some descending ↦ ok (page q col descending limit offset rows)
    ]
  ]

unfoldable pub set_title : ℕ → String → String → List SessionRow → List SessionRow
set_title now id title [] = []
set_title now id title (s ∷ rows) =
    let rest = set_title now id title rows in
    if s.id == id then record s { title = title; updated_at = now } ∷ rest else s ∷ rest

-- UpdateSessionTitle
unfoldable pub update_session_title :
    ℕ → String → String → List SessionRow → Result DbError (List SessionRow)
unfolding set_title
update_session_title now id title rows =
    if any (has_session id) rows then ok (set_title now id title rows) else err not_found

-- the rows of the sessions that `gone` names, and the messages and plans that go with them
unfoldable pub sessions_left : (String → Bool) → List SessionRow → List SessionRow
sessions_left gone [] = []
sessions_left gone (s ∷ rows) =
    let rest = sessions_left gone rows in if gone s.id then rest else s ∷ rest

unfoldable pub messages_left : (String → Bool) → List Message → List Message
messages_left gone [] = []
messages_left gone (m ∷ rows) =
    let rest = messages_left gone rows in if gone m.session_id then rest else m ∷ rest

unfoldable pub plans_left : (String → Bool) → List Plan → List Plan
plans_left gone [] = []
plans_left gone (p ∷ rows) =
    let rest = plans_left gone rows in if gone p.session_id then rest else p ∷ rest

-- the tables that a deletion of sessions reaches; the audit log has no reference to them
pub record SessionTables : Type 0 where
  pub sessions : List SessionRow
  pub messages : List Message
  pub plans : List Plan

-- DELETE FROM sessions, ON DELETE CASCADE: the number of the sessions deleted and what is left
unfoldable pub delete_where : (String → Bool) → SessionTables → ℕ × SessionTables
unfolding sessions_left messages_left plans_left
delete_where gone t = (
  length t.sessions - length (sessions_left gone t.sessions),
  record {
    sessions = sessions_left gone t.sessions;
    messages = messages_left gone t.messages;
    plans = plans_left gone t.plans;
  },
)

-- DeleteSession
unfoldable pub delete_session : String → SessionTables → Result DbError (ℕ × SessionTables)
unfolding delete_where
delete_session id t =
    if any (has_session id) t.sessions then ok (delete_where (λ s. s == id) t) else err not_found

-- DeleteAllSessions
unfoldable pub delete_all_sessions : SessionTables → ℕ × SessionTables
unfolding delete_where
delete_all_sessions t = delete_where (λ s. true) t

-- DeleteSessionsWithoutScheduledTasks; `bound` are the sessions of the tasks
unfoldable pub delete_sessions_without_scheduled_tasks :
    List String → SessionTables → ℕ × SessionTables
unfolding delete_where
delete_sessions_without_scheduled_tasks bound t =
    delete_where (λ s. if any (λ b. b == s) bound then false else true) t
