-- ===== src/Store/Audit.antt =====
-- internal/store/audit.go. The table has an AUTOINCREMENT key: `next` is the one that it gives next.
use kubernetes_agent.Base.{
  ℕ, suc, take, String, Bool, true, false, ◌&&◌, List, [], ◌∷◌, ◌++◌, Option, none, some, ltb, ◌==◌,
  if◌then◌else◌,
}

pub record AuditEntry : Type 0 where
  pub id : ℕ
  pub session_id : Option String
  pub cluster_id : Option String
  pub action : String
  pub target : Option String
  pub status : String
  pub message : Option String
  pub created_at : ℕ

pub record AuditTable : Type 0 where
  pub next : ℕ
  pub rows : List AuditEntry

-- a limit of 0 is none
pub record AuditFilter : Type 0 where
  pub session_id : String
  pub cluster_id : String
  pub action : String
  pub limit : ℕ

-- AppendAudit: the row's key and the table
unfoldable pub append_audit : ℕ → AuditEntry → AuditTable → ℕ × AuditTable
append_audit now e t = (
  t.next,
  record { next = suc t.next; rows = t.rows ++ record e { id = t.next; created_at = now } ∷ [] },
)

-- `column = ?`, which a NULL does not meet
abbrev pub column_is : String → Option String → Bool
column_is v none = false
column_is v (some c) = c == v

-- the WHERE clause: an empty field gives no condition
unfoldable pub wanted : AuditFilter → AuditEntry → Bool
wanted f e =
    (if f.session_id == "" then true else column_is f.session_id e.session_id)
    && (if f.cluster_id == "" then true else column_is f.cluster_id e.cluster_id)
    && (if f.action == "" then true else e.action == f.action)

unfoldable pub where_wanted : AuditFilter → List AuditEntry → List AuditEntry
unfolding wanted
where_wanted f [] = []
where_wanted f (e ∷ rows) = let rest = where_wanted f rows in if wanted f e then e ∷ rest else rest

-- ORDER BY id DESC
unfoldable pub insert_newest : AuditEntry → List AuditEntry → List AuditEntry
insert_newest e [] = e ∷ []
insert_newest e (x ∷ rows) =
    let rest = insert_newest e rows in if ltb e.id x.id then x ∷ rest else e ∷ x ∷ rows

unfoldable pub newest_first : List AuditEntry → List AuditEntry
unfolding insert_newest
newest_first [] = []
newest_first (e ∷ rows) = insert_newest e (newest_first rows)

-- ListAudit
unfoldable pub list_audit : AuditFilter → AuditTable → List AuditEntry
unfolding where_wanted newest_first
list_audit f t =
    let found = newest_first (where_wanted f t.rows) in
    if ltb 0 f.limit then take f.limit found else found
