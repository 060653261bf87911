-- ===== src/Llm/Splitter/Tags.antt =====
-- What a match of the tag expression is.
use kubernetes_agent.Base.{
  ℕ, ◌≡◌, refl, ap, subst, ◌∙◌, true, Bool-cases, List, [], ◌∷◌, ◌++◌, Option, none, some,
  Option-cases, inl, inr, nat_eq, arith,
}
use mathlib.Core.List.{Memᴰ}
use kubernetes_agent.Text.{fold_rune}
use kubernetes_agent.Llm.Splitter.{
  Cut, cut_after, Found, found_after, found_here, tag_forms, take_form, take_first, find_tag,
}

-- a match is of this form, which stands at the start of the text
record Takes (orbit : ℕ → ℕ) (form raw : List ℕ) (m : Cut) : Type 0 where
  joined : raw ≡ m.tag ++ m.rest
  alone : take_form orbit form m.tag ≡ some (record { tag = m.tag; rest = [] })

cut_after-some :
    (c : ℕ) (o : Option Cut) (m : Cut)
    → cut_after c o ≡ some m
    → (n : Cut) × (o ≡ some n) × (record { tag = c ∷ n.tag; rest = n.rest } ≡ m)
cut_after-some c none m h = cc h
cut_after-some c (some n) m h = (n, refl, cc h)

module _ (orbit : ℕ → ℕ) where
  take_step :
      (f c : ℕ) (fs s : List ℕ) (m : Cut)
      → take_form orbit (f ∷ fs) (c ∷ s) ≡ some m
      → (nat_eq (fold_rune orbit c) f ≡ true) × (cut_after c (take_form orbit fs s) ≡ some m)
  unfolding take_form
  take_step f c fs s m h = elim (Bool-cases (nat_eq (fold_rune orbit c) f)) [
    | inl e ↦ (e, ground (arith, e, h))
    | inr e ↦ cc (rw e at h)
  ]

  take_alone :
      (f c : ℕ) (fs : List ℕ) (m : Cut)
      → nat_eq (fold_rune orbit c) f ≡ true
      → take_form orbit fs m.tag ≡ some (record { tag = m.tag; rest = [] })
      → take_form orbit (f ∷ fs) (c ∷ m.tag) ≡ some (record { tag = c ∷ m.tag; rest = [] })
  unfolding take_form
  take_alone f c fs m e h = rw (e, h) refl

  take_form-Takes :
      (form raw : List ℕ) (m : Cut) → take_form orbit form raw ≡ some m → Takes orbit form raw m
  take_form-Takes [] raw m h =
      let e : record { tag = []; rest = raw } ≡ m = unfold take_form in cc h in
      subst (Takes orbit [] raw) e (record { joined = refl; alone = unfold take_form in refl })
  take_form-Takes (f ∷ fs) [] m h = unfold take_form in cc h
  take_form-Takes (f ∷ fs) (c ∷ s) m h =
      let (same, step) = take_step f c fs s m h in
      let (n, more, e) = cut_after-some c (take_form orbit fs s) m step in
      let rest = take_form-Takes fs s n more in
      subst (Takes orbit (f ∷ fs) (c ∷ s)) e (record {
        joined = ap (λ l. c ∷ l) rest.joined;
        alone = take_alone f c fs n same rest.alone;
      })

  -- the text is one of the forms, up to the case of its letters
  abbrev pub IsTag : List ℕ → Type 0
  IsTag t =
      (form : List ℕ) × Memᴰ form tag_forms
      × (take_form orbit form t ≡ some (record { tag = t; rest = [] }))

  take_first-Takes :
      (forms : List (List ℕ)) (raw : List ℕ) (m : Cut)
      → take_first orbit forms raw ≡ some m
      → (form : List ℕ) × Memᴰ form forms × Takes orbit form raw m
  take_first-Takes [] raw m h = unfold take_first in cc h
  take_first-Takes (form ∷ forms) raw m h = elim (Option-cases (take_form orbit form raw)) [
    | inl no_match ↦
        let later : take_first orbit forms raw ≡ some m =
          unfold take_first in ground (arith, no_match, h) in
        let (g, k, t) = take_first-Takes forms raw m later in (g, Memᴰ.tail k, t)
    | inr (n, match_here) ↦
        let e : n ≡ m = unfold take_first in ground (arith, match_here, h) in
        (form, Memᴰ.head refl, take_form-Takes form raw m (match_here ∙ ap some e))
  ]

  -- a match splits the text at a tag
  pub record IsFound (raw : List ℕ) (f : Found) : Type 0 where
    pub joined : raw ≡ f.prefix ++ (f.tag ++ f.rest)
    pub tagged : IsTag f.tag

  found_after-some :
      (c : ℕ) (o : Option Found) (f : Found)
      → found_after c o ≡ some f
      → (g : Found) × (o ≡ some g)
        × (record { prefix = c ∷ g.prefix; tag = g.tag; rest = g.rest } ≡ f)
  found_after-some c none f h = cc h
  found_after-some c (some g) f h = (g, refl, cc h)

  pub find_tag-IsFound : (raw : List ℕ) (f : Found) → find_tag orbit raw ≡ some f → IsFound raw f
  find_tag-IsFound [] f h = unfold find_tag in cc h
  find_tag-IsFound (c ∷ s) f h = elim (Option-cases (take_first orbit tag_forms (c ∷ s))) [
    | inl no_match ↦
        let later : found_after c (find_tag orbit s) ≡ some f =
          unfold find_tag in ground (arith, no_match, h) in
        let (g, found, e) = found_after-some c (find_tag orbit s) f later in
        let rest = find_tag-IsFound s g found in
        subst (IsFound (c ∷ s)) e
          (record { joined = ap (λ l. c ∷ l) rest.joined; tagged = rest.tagged })
    | inr (m, match_here) ↦
        let e : found_here m ≡ f = unfold find_tag in ground (arith, match_here, h) in
        let (form, k, t) = take_first-Takes tag_forms (c ∷ s) m match_here in
        subst (IsFound (c ∷ s)) e (record { joined = t.joined; tagged = (form, k, t.alone) })
  ]
