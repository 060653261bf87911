-- ===== src/Server/Chat/Stored.antt =====
-- What is stored when a stream opens.
use kubernetes_agent.Base.{
  String, true, any, List, [], ◌∷◌, ◌++◌, Option, some, ok, ◌≡◌, sym, ap, subst, ◌∙◌, arith, inl,
  inr, Bool-cases, Result-cases, eq_refl, eq_iff, ◌==◌, if◌then◌else◌,
}
use kubernetes_agent.Store.Messages.{
  Message, SessionRow, Tables, has_session, filled, batch_insert_messages, list_messages_by_session,
}
use kubernetes_agent.Store.Messages.Append.{batch_insert_messages-list, batch_insert_messages-there}
use kubernetes_agent.Store.Sessions.{create_session, session_with}
use kubernetes_agent.Server.Chat.{
  ChatRequest, Fresh, user_message, streaming, default_session_title, new_row, with_session_rows,
  resolve_session, store_message, open_chat,
}

-- the message as it is listed
abbrev pub stored_message : Fresh → String → String → Message
unfolding filled
stored_message w session text = filled w.stored (user_message w session text)

own_message :
    (w : Fresh) (session text : String)
    → list_messages_by_session session (stored_message w session text ∷ [])
      ≡ stored_message w session text ∷ []
unfolding stored_message list_messages_by_session
own_message w session text = rw (eq_refl session)

-- the session of the stream and the messages after it opened
pub record IsStored (w : Fresh) (text id : String) (t t' : Tables) : Type 0 where
  pub there : any (has_session id) t'.sessions ≡ true
  pub messages :
      (list_messages_by_session id t'.messages
        ≡ list_messages_by_session id t.messages ++ stored_message w id text ∷ [])

store_message-IsStored :
    (w : Fresh) (text : String) (row : SessionRow) (t t' : Tables) (id : String)
    (cluster : Option String)
    → store_message w text row t ≡ (streaming id cluster, t')
    → (row.id ≡ id) × IsStored w text id t t'
unfolding store_message stored_message
store_message-IsStored w text row t t' id cluster h =
    elim (Result-cases (batch_insert_messages w.stored (user_message w row.id text ∷ []) t)) [
      | inl (e, g) ↦ ground (arith, g, h)
      | inr (t2, g) ↦
          let same_id : row.id ≡ id = ground (arith, g, h) in
          let same : t2 ≡ t' = ground (arith, g, h) in
          let listed =
            batch_insert_messages-list w.stored (user_message w row.id text ∷ []) t t2 row.id g in
          let own = own_message w row.id text in
          let stored : IsStored w text row.id t t' = record {
            there =
                rw (← same)
                  (batch_insert_messages-there w.stored (user_message w row.id text) t t2 g);
            messages =
                rw (← same)
                  (listed ∙ ap (λ ms. list_messages_by_session row.id t.messages ++ ms) own);
          } in
          (same_id, subst (λ i. IsStored w text i t t') same_id stored)
    ]

session_with-id :
    (id : String) (rows : List SessionRow) (row : SessionRow)
    → session_with id rows ≡ ok row
    → row.id ≡ id
unfolding session_with
session_with-id id [] row h = cc
session_with-id id (s ∷ rows) row h = elim (Bool-cases (s.id == id)) [
  | inl e ↦
      let same : s ≡ row = ground (arith, e, h) in
      subst (λ (x : SessionRow). x.id ≡ id) same ((eq_iff s.id id).0 e)
  | inr e ↦
      let rest : session_with id rows ≡ ok row = ground (arith, e, h) in
      session_with-id id rows row rest
]

-- the id of the session that a request is for
abbrev pub session_for : Fresh → ChatRequest → String
session_for w r = if r.session_id == "" then w.session_id else r.session_id

resolve_session-for :
    (w : Fresh) (r : ChatRequest) (t t' : Tables) (row : SessionRow)
    → resolve_session w r t ≡ ok (row, t')
    → (row.id ≡ session_for w r) × (t'.messages ≡ t.messages)
unfolding resolve_session
resolve_session-for w r t t' row h = elim (Bool-cases (r.session_id == "")) [
  | inl e ↦
      let fresh_row = new_row w.session_id (default_session_title r.message) in
      elim (Result-cases (create_session w.created [] fresh_row t.sessions)) [
        | inl (d, g) ↦ ground (arith, e, g, h)
        | inr (rows, g) ↦
            let same : ok (fresh_row, with_session_rows t rows) ≡ ok (row, t') = rw (e, g) at h in
            ground (arith, e, same)
      ]
  | inr e ↦ elim (Result-cases (session_with r.session_id t.sessions)) [
    | inl (d, g) ↦ ground (arith, e, g, h)
    | inr (found, g) ↦
        let same : found ≡ row = ground (arith, e, g, h) in
        let same_t : t ≡ t' = ground (arith, e, g, h) in
        let found_id = session_with-id r.session_id t.sessions found g in
        (rw (e, ← same) found_id, rw (← same_t))
  ]
]

open_chat-stored :
    (w : Fresh) (r : ChatRequest) (t t' : Tables) (id : String) (cluster : Option String)
    → open_chat w (some r) t ≡ (streaming id cluster, t')
    → (row : SessionRow) × (t2 : Tables) × (resolve_session w r t ≡ ok (row, t2))
      × (store_message w r.message row t2 ≡ (streaming id cluster, t'))
unfolding open_chat
open_chat-stored w r t t' id cluster h = elim (Bool-cases (r.message == "")) [
  | inl e ↦ ground (arith, e, h)
  | inr e ↦ elim (Result-cases (resolve_session w r t)) [
    | inl (reply, g) ↦ ground (arith, e, g, h)
    | inr ((row, t2), g) ↦ (row, t2, g, ground (arith, e, g, h))
  ]
]

-- Where a stream opens, it is for the session of the request or, if that names none, for a new one. That
-- session is in the table, and the user's message is already stored, after the messages that it had.
pub open_chat-IsStored :
    (w : Fresh) (r : ChatRequest) (t t' : Tables) (id : String) (cluster : Option String)
    → open_chat w (some r) t ≡ (streaming id cluster, t')
    → (id ≡ session_for w r) × IsStored w r.message id t t'
open_chat-IsStored w r t t' id cluster h =
    let (row, t2, resolved, stored) = open_chat-stored w r t t' id cluster h in
    let (row_id, same) = resolve_session-for w r t t2 row resolved in
    let (id_eq, kept) = store_message-IsStored w r.message row t2 t' id cluster stored in
    (
      sym id_eq ∙ row_id,
      record {
        there = kept.there;
        messages =
            kept.messages
            ∙ ap (λ ms. list_messages_by_session id ms ++ stored_message w id r.message ∷ []) same;
      },
    )
