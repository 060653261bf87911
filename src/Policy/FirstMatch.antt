-- ===== src/Policy/FirstMatch.antt =====
-- Evaluate against its contract: the first rule that matches decides, and without one a write is
-- to be confirmed and a read allowed.
use kubernetes_agent.Base.{
  ℕ, ◌≡◌, ◌≢◌, refl, ◌⊎◌, inl, inr, ◌↔◌, true, false, List, [], ◌∷◌, ◌++◌, arith, All, Bool-cases,
  if◌then◌else◌, ap, subst, sym, ◌∙◌, eq_iff,
}
use kubernetes_agent.Policy.Rules.{Effect, Rule, OperationInfo, allow, confirm}
use kubernetes_agent.Policy.Engine.{is_write, matches, evaluate}

module _ (orbit : ℕ → ℕ) (op : OperationInfo) where
  abbrev pub Matches : Rule → Type 0
  Matches r = matches orbit r.match op ≡ true

  abbrev pub Misses : Rule → Type 0
  Misses r = matches orbit r.match op ≡ false

  abbrev pub fallback : Effect
  fallback = if is_write op.action then confirm else allow

  -- the first of the rules that matches
  pub record First (rules : List Rule) (e : Effect) : Type 0 where
    pub before : List Rule
    pub rule : Rule
    pub after : List Rule
    pub split : rules ≡ before ++ rule ∷ after
    pub missed : All Misses before
    pub matched : Matches rule
    pub effect : e ≡ rule.effect

  abbrev pub IsDecision : List Rule → Effect → Type 0
  IsDecision rules e = First rules e ⊎ (All Misses rules × (e ≡ fallback))

module _ (orbit : ℕ → ℕ) (op : OperationInfo) where
  evaluate-append :
      (before : List Rule) (r : Rule) (after : List Rule)
      → All (Misses orbit op) before
      → Matches orbit op r
      → evaluate orbit (before ++ r ∷ after) op ≡ r.effect
  unfolding evaluate
  evaluate-append [] r after h m = rw m
  evaluate-append (b ∷ before) r after h m = rw (h.0) (evaluate-append before r after h.1 m)

  evaluate-miss :
      (rules : List Rule)
      → All (Misses orbit op) rules
      → evaluate orbit rules op ≡ fallback orbit op
  unfolding evaluate
  evaluate-miss [] h = refl
  evaluate-miss (r ∷ rules) h = rw (h.0) (evaluate-miss rules h.1)

  extend :
      (r : Rule) (rules : List Rule) {e : Effect}
      → Misses orbit op r
      → IsDecision orbit op rules e
      → IsDecision orbit op (r ∷ rules) e
  extend r rules miss (inl f) = inl (record {
    before = r ∷ f.before;
    rule = f.rule;
    after = f.after;
    split = ap (◌∷◌ r) f.split;
    missed = (miss, f.missed);
    matched = f.matched;
    effect = f.effect;
  })
  extend r rules miss (inr (h, e)) = inr ((miss, h), e)

  hit_first :
      (r : Rule) (rules : List Rule) → Matches orbit op r → evaluate orbit (r ∷ rules) op ≡ r.effect
  unfolding evaluate
  hit_first r rules h = rw h

  skip_first :
      (r : Rule) (rules : List Rule)
      → Misses orbit op r
      → evaluate orbit (r ∷ rules) op ≡ evaluate orbit rules op
  unfolding evaluate
  skip_first r rules h = rw h

  decision : (rules : List Rule) → IsDecision orbit op rules (evaluate orbit rules op)
  decision [] = inr (tt, unfold evaluate in refl)
  decision (r ∷ rules) = elim (Bool-cases (matches orbit r.match op)) [
    | inl hit ↦ inl (record {
      before = [];
      rule = r;
      after = rules;
      split = refl;
      missed = tt;
      matched = hit;
      effect = hit_first r rules hit;
    })
    | inr miss ↦
        subst (IsDecision orbit op (r ∷ rules)) (sym (skip_first r rules miss))
          (extend r rules miss (decision rules))
  ]

  -- Evaluate answers `e` exactly if `e` is the effect of the first rule that matches the operation,
  -- or if no rule matches and `e` is `confirm` for a write and `allow` for anything else.
  pub evaluate-IsDecision :
      (rules : List Rule) (e : Effect) → (evaluate orbit rules op ≡ e) ↔ IsDecision orbit op rules e
  evaluate-IsDecision rules e = (λ h. subst (IsDecision orbit op rules) h (decision rules), back)
    where
      back : IsDecision orbit op rules e → evaluate orbit rules op ≡ e
      back (inl f) =
          rw f.split (rw f.effect (evaluate-append f.before f.rule f.after f.missed f.matched))
      back (inr (h, p)) = evaluate-miss rules h ∙ sym p

  -- If no rule has the effect `allow`, no write is allowed: the answer for an `apply`, a `delete` or
  -- a `scale` is never `allow`.
  pub evaluate-ne-allow :
      (rules : List Rule)
      → All (λ r. r.effect ≢ allow) rules
      → is_write op.action ≡ true
      → evaluate orbit rules op ≢ allow
  unfolding evaluate
  evaluate-ne-allow [] h w = rw w (ground (arith, eq_iff confirm allow))
  evaluate-ne-allow (r ∷ rules) h w = elim (Bool-cases (matches orbit r.match op)) [
    | inl hit ↦ rw hit h.0
    | inr miss ↦ rw miss (evaluate-ne-allow rules h.1 w)
  ]
