-- ===== src/Store/Messages/Append.antt =====
-- The messages of a session after an insert.
use kubernetes_agent.Base.{
  ℕ, true, any, subst, ◌≡◌, refl, sym, ap, ◌∙◌, String, Bool-cases, List, [], ◌∷◌, ◌++◌, map,
  append-nil, append_assoc, Result, ok, >>=-inversion, ◌==◌, inl, inr, arith,
}
use kubernetes_agent.Store.Failure.{DbError}
use kubernetes_agent.Store.Messages.{
  Message, SessionRow, Tables, has_session, filled, insert_all, touch, batch_insert_messages,
  list_messages_by_session,
}

list-append :
    (id : String) (a b : List Message)
    → list_messages_by_session id (a ++ b)
      ≡ list_messages_by_session id a ++ list_messages_by_session id b
unfolding list_messages_by_session
list-append id [] b = refl
list-append id (m ∷ a) b = elim (Bool-cases (m.session_id == id)) [
  | inl h ↦ rw h (ap (λ l. m ∷ l) (list-append id a b))
  | inr h ↦ rw h (list-append id a b)
]

insert_more :
    (now : ℕ) (sessions : List SessionRow) (m : Message) (ms rows rows' : List Message)
    → insert_all now sessions (m ∷ ms) rows ≡ ok rows'
    → insert_all now sessions ms (rows ++ filled now m ∷ []) ≡ ok rows'
unfolding insert_all
insert_more now sessions m ms rows rows' h = ground (arith, h)

insert_all-appends :
    (now : ℕ) (sessions : List SessionRow) (ms rows rows' : List Message)
    → insert_all now sessions ms rows ≡ ok rows'
    → rows' ≡ rows ++ map (filled now) ms
insert_all-appends now sessions [] rows rows' h =
    let e : rows ≡ rows' = unfold insert_all in cc h in sym e ∙ sym (append-nil rows)
insert_all-appends now sessions (m ∷ ms) rows rows' h =
    insert_all-appends now sessions ms (rows ++ filled now m ∷ []) rows'
      (insert_more now sessions m ms rows rows' h)
    ∙ append_assoc rows (filled now m ∷ []) (map (filled now) ms)

messages_of :
    (r t : Tables) (o : Result DbError Tables) → o ≡ ok r → o ≡ ok t → r.messages ≡ t.messages
messages_of r t o e e' = let same : r ≡ t = cc (e, e') in ap (λ t. t.messages) same

inserted_rows :
    (now : ℕ) (m : Message) (ms : List Message) (t t' : Tables)
    → batch_insert_messages now (m ∷ ms) t ≡ ok t'
    → (rows : List Message) × (insert_all now t.sessions (m ∷ ms) t.messages ≡ ok rows)
      × (rows ≡ t'.messages)
unfolding batch_insert_messages
inserted_rows now m ms t t' h =
    let (rows, inserted, e) =
      >>=-inversion
        (λ rows. ok (record { sessions = touch now (m ∷ ms) t.sessions; messages = rows }))
        (insert_all now t.sessions (m ∷ ms) t.messages) t' h in
    (rows, inserted, messages_of _ t' _ refl e)

-- After a batch insert that succeeds, the messages of a session are those that it had followed by
-- those of the batch that are its own, in the batch's order and with the defaults filled in.
pub batch_insert_messages-list :
    (now : ℕ) (msgs : List Message) (t t' : Tables) (id : String)
    → batch_insert_messages now msgs t ≡ ok t'
    → list_messages_by_session id t'.messages
      ≡ list_messages_by_session id t.messages
        ++ list_messages_by_session id (map (filled now) msgs)
batch_insert_messages-list now [] t t' id h =
    let e : t ≡ t' = unfold batch_insert_messages in cc h in
    unfold list_messages_by_session in
    ap (λ t. list_messages_by_session id t.messages) (sym e) ∙ sym (append-nil _)
batch_insert_messages-list now (m ∷ ms) t t' id h =
    let (rows, inserted, same) = inserted_rows now m ms t t' h in
    ap (list_messages_by_session id)
      (sym same ∙ insert_all-appends now t.sessions (m ∷ ms) t.messages rows inserted)
    ∙ list-append id t.messages (map (filled now) (m ∷ ms))

touch-there :
    (now : ℕ) (msgs : List Message) (id : String) (rows : List SessionRow)
    → any (has_session id) (touch now msgs rows) ≡ any (has_session id) rows
unfolding touch
touch-there now msgs id [] = refl
touch-there now msgs id (s ∷ rows) = ground (arith, touch-there now msgs id rows)

insert_all-there :
    (now : ℕ) (sessions : List SessionRow) (m : Message) (rows rows' : List Message)
    → insert_all now sessions (m ∷ []) rows ≡ ok rows'
    → any (has_session m.session_id) sessions ≡ true
unfolding insert_all
insert_all-there now sessions m rows rows' h = ground (arith, h)

-- a message is stored for a session that there is
pub batch_insert_messages-there :
    (now : ℕ) (m : Message) (t t' : Tables)
    → batch_insert_messages now (m ∷ []) t ≡ ok t'
    → any (has_session m.session_id) t'.sessions ≡ true
unfolding batch_insert_messages
batch_insert_messages-there now m t t' h =
    let (rows, inserted, e) =
      >>=-inversion
        (λ rows. ok (record { sessions = touch now (m ∷ []) t.sessions; messages = rows }))
        (insert_all now t.sessions (m ∷ []) t.messages) t' h in
    let r : Tables = record { sessions = touch now (m ∷ []) t.sessions; messages = rows } in
    let same : r ≡ t' = cc e in
    subst (λ (x : Tables). any (has_session m.session_id) x.sessions ≡ true) same
      (touch-there now (m ∷ []) m.session_id t.sessions
        ∙ insert_all-there now t.sessions m t.messages rows inserted)
