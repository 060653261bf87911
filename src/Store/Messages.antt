-- ===== src/Store/Messages.antt =====
-- internal/store/messages.go, with the rows of the sessions table that it touches.
pub mod Append
use kubernetes_agent.Base.{
  ℕ, String, Bool, true, false, List, [], ◌∷◌, ◌++◌, Option, none, some, Result, ok, err, ◌>>=◌,
  any, nat_eq, ◌==◌, if◌then◌else◌,
}
use kubernetes_agent.Store.Failure.{DbError, constraint}

pub record Message : Type 0 where
  pub id : String
  pub session_id : String
  pub role : String
  pub content : Option String
  pub tool_calls : Option String
  pub tool_call_id : Option String
  pub reasoning : Option String
  pub created_at : ℕ
  pub source : String

-- Session of sessions.go
pub record SessionRow : Type 0 where
  pub id : String
  pub title : String
  pub cluster_id : Option String
  pub created_at : ℕ
  pub updated_at : ℕ

pub record Tables : Type 0 where
  pub sessions : List SessionRow
  pub messages : List Message

-- the defaults of a row
unfoldable pub filled : ℕ → Message → Message
filled now m = record m {
  created_at = if nat_eq m.created_at 0 then now else m.created_at;
  source = if m.source == "" then "user" else m.source;
}

abbrev pub has_session : String → SessionRow → Bool
has_session id row = row.id == id

abbrev pub has_message : String → Message → Bool
has_message id row = row.id == id

-- the inserts in turn
unfoldable pub insert_all :
    ℕ → List SessionRow → List Message → List Message → Result DbError (List Message)
insert_all now sessions [] rows = ok rows
insert_all now sessions (m ∷ ms) rows =
    let more = insert_all now sessions ms (rows ++ filled now m ∷ []) in
    if any (has_session m.session_id) sessions
    then if any (has_message m.id) rows then err constraint else more
    else err constraint

-- UPDATE sessions SET updated_at for every session of the messages
unfoldable pub touch : ℕ → List Message → List SessionRow → List SessionRow
touch now msgs [] = []
touch now msgs (s ∷ rows) =
    let rest = touch now msgs rows in
    if any (λ m. m.session_id == s.id) msgs then record s { updated_at = now } ∷ rest else s ∷ rest

-- BatchInsertMessages: an error rolls all of it back
unfoldable pub batch_insert_messages : ℕ → List Message → Tables → Result DbError Tables
unfolding insert_all touch
batch_insert_messages now [] t = ok t
batch_insert_messages now (m ∷ ms) t = insert_all now t.sessions (m ∷ ms) t.messages >>= λ rows.
    ok (record { sessions = touch now (m ∷ ms) t.sessions; messages = rows })

-- ListMessagesBySession
unfoldable pub list_messages_by_session : String → List Message → List Message
list_messages_by_session id [] = []
list_messages_by_session id (m ∷ rows) =
    let rest = list_messages_by_session id rows in if m.session_id == id then m ∷ rest else rest
