-- ===== src/Llm/Splitter/Hold.antt =====
-- What is held back of a text that has no tag, and what is not.
use kubernetes_agent.Base.{
  ℕ, ◌≡◌, refl, sym, ap, subst, Bool-cases, List, [], ◌∷◌, ◌++◌, append-nil, Option, none, some,
  inl, inr, nat_eq, ltb,
}
use kubernetes_agent.Text.{byte_len}
use kubernetes_agent.Llm.Splitter.{max_tag_prefix_len, split_after, split_last, hold_at, hold}

-- the two parts make up the text
abbrev Joins : List ℕ → Option (List ℕ × List ℕ) → Type 0
Joins s o = (p : List ℕ × List ℕ) → o ≡ some p → s ≡ p.0 ++ p.1

some_injective : {A : Type 0} (a b : A) → some a ≡ some b → a ≡ b
some_injective a b h = cc h

split_after-Joins :
    (c : ℕ) (s : List ℕ) (o : Option (List ℕ × List ℕ))
    → Joins s o
    → Joins (c ∷ s) (split_after c s o)
split_after-Joins c s (some (a, b)) join q h =
    subst (λ q. (c ∷ s) ≡ q.0 ++ q.1) (some_injective (c ∷ a, b) q h)
      (ap (λ l. c ∷ l) (join (a, b) refl))
split_after-Joins c s none join q h = elim (Bool-cases (nat_eq c b'<')) [
  | inl e ↦
      let at_end : List ℕ × List ℕ = ([], c ∷ s) in
      let same : some at_end ≡ some q = rw e at h in
      subst (λ q. (c ∷ s) ≡ q.0 ++ q.1) (some_injective at_end q same) refl
  | inr e ↦ cc (rw e at h)
]

split_last-Joins : (s : List ℕ) → Joins s (split_last s)
unfolding split_last
split_last-Joins [] p h = cc h
split_last-Joins (c ∷ s) p h = split_after-Joins c s (split_last s) (split_last-Joins s) p h

hold_at-join :
    (raw : List ℕ) (o : Option (List ℕ × List ℕ))
    → Joins raw o
    → raw ≡ (hold_at raw o).0 ++ (hold_at raw o).1
unfolding hold_at
hold_at-join raw none join = sym (append-nil raw)
hold_at-join raw (some (a, b)) join = elim (Bool-cases (ltb max_tag_prefix_len (byte_len b))) [
  | inl e ↦ rw e (sym (append-nil raw))
  | inr e ↦ rw e (join (a, b) refl)
]

pub hold-join : (raw : List ℕ) → raw ≡ (hold raw).0 ++ (hold raw).1
unfolding hold
hold-join raw = hold_at-join raw (split_last raw) (split_last-Joins raw)
