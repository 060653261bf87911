-- ===== src/Server/Policies/Readable.antt =====
-- What the statements of the policies table keep: whatever holds of every row, and that every YAML is
-- readable.
use Prim.Native.Nat.{Ordering}
use Prim.Native.String.{compare}
use kubernetes_agent.Base.{
  ℕ, String, Bool, true, false, List, [], ◌∷◌, ◌++◌, ◌≡◌, subst, inl, inr, any, arith, All,
  All-append, Bool-cases, Result, ok, ◌==◌, if◌then◌else◌,
}
use kubernetes_agent.Store.Failure.{DbError}
use kubernetes_agent.Store.Policies.{
  Policy, takes_name, has_id, replace, upsert_policy, insert_by_name, order_by_name, where_enabled,
  without_id, delete_policy, mark_enabled, set_enabled, list_all_policies,
}
use kubernetes_agent.Policy.Rules.{Rule}

-- what holds of every row holds of the rows that a statement leaves or lists
module _ {ℓ} (P : Policy → Type ℓ) where
  pub All-if : (b : Bool) (xs ys : List Policy) → All P xs → All P ys → All P (if b then xs else ys)
  All-if true xs ys hx hy = hx
  All-if false xs ys hx hy = hy

  pub All-insert_by_name :
      (p : Policy) (rows : List Policy) → P p → All P rows → All P (insert_by_name p rows)
  unfolding insert_by_name
  All-insert_by_name p [] hp h = (hp, tt)
  All-insert_by_name p (q ∷ rows) hp h =
      elim (compare p.name q.name)
        as (λ o. All P (elim o [ Ordering.gt ↦ q ∷ insert_by_name p rows | _ ↦ p ∷ q ∷ rows ])) [
          | Ordering.gt ↦ (h.0, All-insert_by_name p rows hp h.1)
          | Ordering.lt ↦ (hp, h)
          | Ordering.eq ↦ (hp, h)
        ]

  pub All-order_by_name : (rows : List Policy) → All P rows → All P (order_by_name rows)
  unfolding order_by_name
  All-order_by_name [] h = tt
  All-order_by_name (p ∷ rows) h =
      All-insert_by_name p (order_by_name rows) h.0 (All-order_by_name rows h.1)

  pub All-where_enabled : (rows : List Policy) → All P rows → All P (where_enabled rows)
  unfolding where_enabled
  All-where_enabled [] h = tt
  All-where_enabled (p ∷ rows) h =
      let ih = All-where_enabled rows h.1 in All-if p.enabled (p ∷ _) _ (h.0, ih) ih

  pub All-without_id : (id : String) (rows : List Policy) → All P rows → All P (without_id id rows)
  unfolding without_id
  All-without_id id [] h = tt
  All-without_id id (p ∷ rows) h =
      let ih = All-without_id id rows h.1 in All-if (p.id == id) _ (p ∷ _) ih (h.0, ih)

  pub All-list_all_policies : (rows : List Policy) → All P rows → All P (list_all_policies rows)
  unfolding list_all_policies
  All-list_all_policies rows h = All-order_by_name rows h

module _ (decode : String → Result DbError Rule) where
  -- a row whose YAML is a rule
  abbrev pub Readable : Policy → Type 0
  Readable p = (rule : Rule) × (decode p.yaml ≡ ok rule)

  pub All-replace :
      (now : ℕ) (p : Policy) (rows : List Policy)
      → Readable p
      → All Readable rows
      → All Readable (replace now p rows)
  unfolding replace
  All-replace now p [] hp h = tt
  All-replace now p (row ∷ rows) hp h =
      All-if Readable (row.id == p.id) (_ ∷ rows) (row ∷ _) (hp, h.1)
        (h.0, All-replace now p rows hp h.1)

  pub All-mark_enabled :
      (now : ℕ) (id : String) (b : Bool) (rows : List Policy)
      → All Readable rows
      → All Readable (mark_enabled now id b rows)
  unfolding mark_enabled
  All-mark_enabled now id b [] h = tt
  All-mark_enabled now id b (p ∷ rows) h =
      let ih = All-mark_enabled now id b rows h.1 in
      All-if Readable (p.id == id) (_ ∷ _) (p ∷ _) (h.0, ih) (h.0, ih)

  pub All-upsert_policy :
      (now : ℕ) (p : Policy) (rows rows' : List Policy)
      → Readable p
      → All Readable rows
      → upsert_policy now p rows ≡ ok rows'
      → All Readable rows'
  unfolding upsert_policy
  All-upsert_policy now p rows rows' hp h e = elim (Bool-cases (any (takes_name p) rows)) [
    | inl taken ↦ ground (arith, taken, e)
    | inr free ↦ elim (Bool-cases (any (has_id p.id) rows)) [
      | inl old ↦
          let e' : replace now p rows ≡ rows' = ground (arith, free, old, e) in
          subst (All Readable) e' (All-replace now p rows hp h)
      | inr new ↦
          let e' : rows ++ record p { created_at = now; updated_at = now } ∷ [] ≡ rows' =
            ground (arith, free, new, e) in
          subst (All Readable) e' (All-append Readable rows _ h (hp, tt))
    ]
  ]

  pub All-delete_policy :
      (id : String) (rows rows' : List Policy)
      → All Readable rows
      → delete_policy id rows ≡ ok rows'
      → All Readable rows'
  unfolding delete_policy
  All-delete_policy id rows rows' h e = elim (Bool-cases (any (has_id id) rows)) [
    | inl old ↦
        let e' : without_id id rows ≡ rows' = ground (arith, old, e) in
        subst (All Readable) e' (All-without_id Readable id rows h)
    | inr new ↦ ground (arith, new, e)
  ]

  pub All-set_enabled :
      (now : ℕ) (id : String) (b : Bool) (rows rows' : List Policy)
      → All Readable rows
      → set_enabled now id b rows ≡ ok rows'
      → All Readable rows'
  unfolding set_enabled
  All-set_enabled now id b rows rows' h e = elim (Bool-cases (any (has_id id) rows)) [
    | inl old ↦
        let e' : mark_enabled now id b rows ≡ rows' = ground (arith, old, e) in
        subst (All Readable) e' (All-mark_enabled now id b rows h)
    | inr new ↦ ground (arith, new, e)
  ]
