-- ===== src/Server/Chat.antt =====
-- chatHandler of internal/server/handler_chat.go: the set-up of a turn, and the forwarding of its
-- events. Writing to the connection is outside.
pub mod Stored
pub mod Frames
use kubernetes_agent.Base.{
  ℕ, suc, ◌+◌, ◌-◌, String, Bool, true, false, List, [], ◌∷◌, Option, none, some, Result, ok, err,
  code, ltb, leb, ◌==◌, if◌then◌else◌,
}
use kubernetes_agent.Text.{rune_len, byte_len, codes}
use kubernetes_agent.Store.Failure.{DbError, not_found}
use kubernetes_agent.Store.Messages.{Message, SessionRow, Tables, batch_insert_messages}
use kubernetes_agent.Store.Sessions.{create_session, session_with}
use kubernetes_agent.Agent.Session.{Sessions, new_session, set, drop}
use kubernetes_agent.Server.Response.{Reply, failure, invalid_json, internal, invalid}

pub record ChatRequest : Type 0 where
  pub session_id : String
  pub message : String

-- the characters of a text that fit in `room` bytes; each byte left of one that does not is shown as
-- U+FFFD once the title is decoded
unfoldable pub broken : ℕ → String
broken ℕ.zero = ""
broken (suc n) = String.◌∷◌ "�" (broken n)

unfoldable pub cut : ℕ → String → String
unfolding broken
cut room String.[] = ""
cut room (String.◌∷◌ c s) =
    let rest = cut (room - rune_len (code c)) s in
    if leb (rune_len (code c)) room then String.◌∷◌ c rest else broken room

unfoldable pub with_dots : String → String
with_dots String.[] = "…"
with_dots (String.◌∷◌ c s) = String.◌∷◌ c (with_dots s)

-- defaultSessionTitle
unfoldable pub default_session_title : String → String
unfolding cut with_dots
default_session_title msg =
    let s = if ltb 30 (byte_len (codes msg)) then with_dots (cut 30 msg) else msg in
    if s == "" then "new chat" else s

abbrev pub new_row : String → String → SessionRow
new_row id title = record {
  id = id;
  title = title;
  cluster_id = none;
  created_at = 0;
  updated_at = 0;
}

abbrev pub with_session_rows : Tables → List SessionRow → Tables
with_session_rows t rows = record t { sessions = rows }

-- what uuid.NewString and time.Now give
pub record Fresh : Type 0 where
  pub session_id : String
  pub message_id : String
  pub created : ℕ
  pub stored : ℕ

abbrev pub user_message : Fresh → String → String → Message
user_message w session text = record {
  id = w.message_id;
  session_id = session;
  role = "user";
  content = some text;
  tool_calls = none;
  tool_call_id = none;
  reasoning = none;
  created_at = 0;
  source = "";
}

-- how the set-up ends: a refusal, or a stream for a session and its cluster
pub data Opening : Type 0 where
  refused : Reply (Unit {0}) → Opening
  streaming : String → Option String → Opening

abbrev pub not_there : DbError → Reply (Unit {0})
not_there not_found = failure 404 "not_found" false
not_there e = internal

-- the session of the request, and the tables with it
unfoldable pub resolve_session :
    Fresh → ChatRequest → Tables → Result (Reply (Unit {0})) (SessionRow × Tables)
unfolding create_session default_session_title session_with
resolve_session w r t =
    if r.session_id == ""
    then (elim (create_session w.created [] (new_row w.session_id (default_session_title r.message))
        t.sessions) [
          | err e ↦ err internal
          | ok rows ↦
              ok (new_row w.session_id (default_session_title r.message), with_session_rows t rows)
        ])
    else (elim (session_with r.session_id t.sessions) [
      | err e ↦ err (not_there e)
      | ok row ↦ ok (row, t)
    ])

-- the user's message is stored before the stream opens
unfoldable pub store_message : Fresh → String → SessionRow → Tables → Opening × Tables
unfolding batch_insert_messages
store_message w text row t =
    elim (batch_insert_messages w.stored (user_message w row.id text ∷ []) t) [
      | err e ↦ (refused internal, t)
      | ok t' ↦ (streaming row.id row.cluster_id, t')
    ]

-- chatHandler up to the first event
unfoldable pub open_chat : Fresh → Option ChatRequest → Tables → Opening × Tables
unfolding resolve_session store_message
open_chat w none t = (refused invalid_json, t)
open_chat w (some r) t =
    if r.message == "" then (refused invalid, t) else elim (resolve_session w r t) [
      | err reply ↦ (refused reply, t)
      | ok (row, t') ↦ store_message w r.message row t'
    ]

-- the registry over a turn: the runner's session is set, and dropped as the handler returns
unfoldable pub register_turn : String → Sessions → Sessions
unfolding set
register_turn id m = set id (new_session id) m

unfoldable pub finish_turn : String → Sessions → Sessions
unfolding drop
finish_turn id m = drop id m

-- one frame of the stream
pub record Frame {ℓ} (E : Type ℓ) : Type ℓ where
  pub id : ℕ
  pub event : E

abbrev pub frame {ℓ} : {E : Type ℓ} → ℕ → E → Frame E
frame k e = record { id = k; event = e }

-- the loop that forwards the events, from the counter on: it takes the next event, or returns, as the run
-- is over, the client is gone or a write failed. Where several of these are so, `select` takes any.
pub data Forward {ℓ} {E : Type ℓ} : ℕ → List E → List (Frame E) → Type ℓ where
  returns : (k : ℕ) (events : List E) → Forward k events []
  sends :
      (k : ℕ) (e : E) (events : List E) (frames : List (Frame E))
      → Forward (suc k) events frames
      → Forward k (e ∷ events) (frame (suc k) e ∷ frames)
