-- ===== src/Server/Sessions/Page.antt =====
-- What a page of sessions holds.
use kubernetes_agent.Base.{
  ℕ, zero, suc, ◌≤◌, String, Bool, true, List, [], ◌∷◌, Option, none, some, ok, ◌≡◌, map, length,
  length-map, take, drop, All, arith, inl, inr, Bool-cases, Option-cases, Result-cases, ◌==◌, ◌||◌,
}
use kubernetes_agent.Text.{atoi}
use kubernetes_agent.Store.Messages.{SessionRow}
use kubernetes_agent.Store.Sessions.{
  SortColumn, sort_column, sort_order, stands_before, insert_sorted, sorted, is_match, matching,
  or_hundred, page, list_sessions_filtered,
}
use kubernetes_agent.Server.Response.{view}
use kubernetes_agent.Server.Query.{
  session_list_limit, checked_limit, limit_of, offset_of, or_default,
}
use kubernetes_agent.Server.Sessions.{SessionView, to_session_view, list_sessions_handler}

length-take-le {ℓ} : {A : Type ℓ} (n : ℕ) (xs : List A) → length (take n xs) ≤ n
length-take-le zero xs = omega arith
length-take-le (suc n) [] = omega arith
length-take-le (suc n) (x ∷ xs) = omega (arith, length-take-le n xs)

module _ {ℓ κ} {A : Type ℓ} (P : A → Type κ) where
  All-take : (n : ℕ) (xs : List A) → All P xs → All P (take n xs)
  All-take zero xs h = tt
  All-take (suc n) [] h = tt
  All-take (suc n) (x ∷ xs) h = (h.0, All-take n xs h.1)

  All-drop : (n : ℕ) (xs : List A) → All P xs → All P (drop n xs)
  All-drop zero xs h = h
  All-drop (suc n) [] h = tt
  All-drop (suc n) (x ∷ xs) h = All-drop n xs h.1

checked_limit_bounds :
    (o : Option (Bool × ℕ)) (n : ℕ) → checked_limit o ≡ some n → (1 ≤ n) × (n ≤ 100)
checked_limit_bounds none n h = cc
checked_limit_bounds (some (negative, m)) n h = ground (arith, h)

-- a limit that is accepted lies in the range
limit_of_bounds : (s : String) (n : ℕ) → limit_of s ≡ some n → (1 ≤ n) × (n ≤ 100)
unfolding limit_of
limit_of_bounds s n h = elim (Bool-cases (s == "")) [
  | inl e ↦ let same : some session_list_limit ≡ some n = rw e at h in ground (arith, same)
  | inr e ↦
      let same : checked_limit (atoi s) ≡ some n = rw e at h in checked_limit_bounds (atoi s) n same
]

module _ (like : String → String → Bool) (title_le : String → String → Bool) where
  -- the query: no query, or a title that is like it
  abbrev pub IsAsked : String → SessionView → Type 0
  IsAsked q v = (q == "" || like q v.title) ≡ true

  abbrev IsAskedRow : String → SessionRow → Type 0
  IsAskedRow q s = IsAsked q (to_session_view s)

  All-insert_sorted :
      (q : String) (col : SortColumn) (d : Bool) (s : SessionRow) (rows : List SessionRow)
      → IsAskedRow q s
      → All (IsAskedRow q) rows
      → All (IsAskedRow q) (insert_sorted like title_le col d s rows)
  unfolding insert_sorted
  All-insert_sorted q col d s [] hs h = (hs, tt)
  All-insert_sorted q col d s (x ∷ rows) hs h =
      let ih = All-insert_sorted q col d s rows hs h.1 in
      elim (Bool-cases (stands_before like title_le col d s x)) [
        | inl e ↦ rw e (hs, h)
        | inr e ↦ rw e (h.0, ih)
      ]

  All-sorted :
      (q : String) (col : SortColumn) (d : Bool) (rows : List SessionRow)
      → All (IsAskedRow q) rows
      → All (IsAskedRow q) (sorted like title_le col d rows)
  unfolding sorted
  All-sorted q col d [] h = tt
  All-sorted q col d (s ∷ rows) h =
      All-insert_sorted q col d s (sorted like title_le col d rows) h.0
        (All-sorted q col d rows h.1)

  All-matching :
      (q : String) (rows : List SessionRow) → All (IsAskedRow q) (matching like title_le q rows)
  unfolding matching
  All-matching q [] = tt
  All-matching q (s ∷ rows) = elim (Bool-cases (is_match like title_le q s)) [
    | inl e ↦ let asked : IsAskedRow q s = ground (arith, e) in rw e (asked, All-matching q rows)
    | inr e ↦ rw e (All-matching q rows)
  ]

  All-page :
      (q : String) (col : SortColumn) (d : Bool) (n m : ℕ) (rows : List SessionRow)
      → All (IsAskedRow q) (page like title_le q col d n m rows)
  unfolding page
  All-page q col d n m rows =
      All-take (IsAskedRow q) (or_hundred like title_le n) _
        (All-drop (IsAskedRow q) m _ (All-sorted q col d _ (All-matching q rows)))

  All-views :
      (q : String) (rows : List SessionRow)
      → All (IsAskedRow q) rows
      → All (IsAsked q) (map to_session_view rows)
  All-views q [] h = tt
  All-views q (s ∷ rows) h = (h.0, All-views q rows h.1)

  or_hundred_id : (n : ℕ) → 1 ≤ n → or_hundred like title_le n ≡ n
  or_hundred_id n h = ground arith

  length-page-le :
      (q : String) (col : SortColumn) (d : Bool) (n m : ℕ) (rows : List SessionRow)
      → 1 ≤ n
      → length (page like title_le q col d n m rows) ≤ n
  unfolding page
  length-page-le q col d n m rows h = rw (or_hundred_id n h) (length-take-le n _)

  list_sessions_filtered_page :
      (q sort order : String) (n m : ℕ) (rows found : List SessionRow)
      → 1 ≤ n
      → list_sessions_filtered like title_le q sort order n m rows ≡ ok found
      → (length found ≤ n) × All (IsAskedRow q) found
  unfolding list_sessions_filtered
  list_sessions_filtered_page q sort order n m rows found pos h =
      elim (Option-cases (sort_column sort)) [
        | inl e ↦ ground (arith, e, h)
        | inr (col, e) ↦ elim (Option-cases (sort_order order)) [
          | inl g ↦ ground (arith, e, g, h)
          | inr (d, g) ↦
              let same : page like title_le q col d n m rows ≡ found = ground (arith, e, g, h) in
              let short : length (page like title_le q col d n m rows) ≤ n =
                length-page-le q col d n m rows pos in
              rw (← same) (short, All-page q col d n m rows)
        ]
      ]

  -- A list that is answered by sessions is one for a limit in 1..100, and it has at most that many
  -- sessions, each with a title that is like the query, if there is one.
  pub list_sessions_handler_bounds :
      (q sort order limit offset : String) (rows : List SessionRow) (status : ℕ)
      (views : List SessionView)
      → list_sessions_handler like title_le q sort order limit offset rows ≡ view status views
      → (n : ℕ) × (limit_of limit ≡ some n)
        × (1 ≤ n)
        × (n ≤ 100)
        × (length views ≤ n)
        × All (IsAsked q) views
  unfolding list_sessions_handler
  list_sessions_handler_bounds q sort order limit offset rows status views h =
      elim (Option-cases (limit_of limit)) [
        | inl e ↦ ground (arith, e, h)
        | inr (n, e) ↦ elim (Option-cases (offset_of offset)) [
          | inl g ↦ ground (arith, e, g, h)
          | inr (m, g) ↦
              let listed =
                list_sessions_filtered like title_le q (or_default "updated_at" sort)
                  (or_default "desc" order) n m rows in
              elim (Result-cases listed) [
                | inl (d, k) ↦ ground (arith, e, g, k, h)
                | inr (found, k) ↦
                    let same : map to_session_view found ≡ views = ground (arith, e, g, k, h) in
                    let range = limit_of_bounds limit n e in
                    let (short, asked) =
                      list_sessions_filtered_page q (or_default "updated_at" sort)
                        (or_default "desc" order) n m rows found range.0 k in
                    (
                      n,
                      e,
                      range.0,
                      range.1,
                      rw (← same, length-map to_session_view found) short,
                      rw (← same) (All-views q found asked),
                    )
              ]
        ]
      ]
