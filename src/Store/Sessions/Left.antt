-- ===== src/Store/Sessions/Left.antt =====
-- What deletions and a new title leave of the rows.
use kubernetes_agent.Base.{
  ℕ, String, Bool, true, false, List, [], ◌∷◌, ◌≡◌, refl, ap, ◌∙◌, any, arith, inl, inr, Bool-cases,
  ◌==◌, eq_iff,
}
use kubernetes_agent.Store.Messages.{Message, SessionRow, has_session, list_messages_by_session}
use kubernetes_agent.Store.Sessions.{set_title, sessions_left, messages_left}

pub any-sessions_left :
    (gone : String → Bool) (id : String) (rows : List SessionRow)
    → gone id ≡ false
    → any (has_session id) rows ≡ true
    → any (has_session id) (sessions_left gone rows) ≡ true
unfolding sessions_left
any-sessions_left gone id [] keep h = h
any-sessions_left gone id (s ∷ rows) keep h = elim (Bool-cases (s.id == id)) [
  | inl e ↦
      let same : gone s.id ≡ false = ap gone ((eq_iff s.id id).0 e) ∙ keep in
      ground (arith, same, e)
  | inr e ↦ ground (arith, e, h, any-sessions_left gone id rows keep)
]

pub list-messages_left :
    (gone : String → Bool) (id : String) (rows : List Message)
    → gone id ≡ false
    → list_messages_by_session id (messages_left gone rows) ≡ list_messages_by_session id rows
unfolding messages_left list_messages_by_session
list-messages_left gone id [] keep = refl
list-messages_left gone id (m ∷ rows) keep = elim (Bool-cases (m.session_id == id)) [
  | inl e ↦
      let same : gone m.session_id ≡ false = ap gone ((eq_iff m.session_id id).0 e) ∙ keep in
      ground (arith, same, e, list-messages_left gone id rows keep)
  | inr e ↦ ground (arith, e, list-messages_left gone id rows keep)
]

pub any-set_title :
    (now : ℕ) (id other title : String) (rows : List SessionRow)
    → any (has_session other) (set_title now id title rows) ≡ any (has_session other) rows
unfolding set_title
any-set_title now id other title [] = refl
any-set_title now id other title (s ∷ rows) = ground (arith, any-set_title now id other title rows)
