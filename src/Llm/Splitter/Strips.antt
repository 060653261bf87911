-- ===== src/Llm/Splitter/Strips.antt =====
-- A text without some of its tags.
use kubernetes_agent.Base.{ℕ, sym, subst, List, [], ◌∷◌, ◌++◌, append_assoc}
use kubernetes_agent.Llm.Splitter.Tags.{IsTag}

-- the second text is the first without some of its tags
pub data Strips (orbit : ℕ → ℕ) : List ℕ → List ℕ → Type 0 where
  nothing_left : Strips orbit [] []
  keep : (c : ℕ) {raw kept : List ℕ} → Strips orbit raw kept → Strips orbit (c ∷ raw) (c ∷ kept)
  strip :
      (t : List ℕ) {raw kept : List ℕ}
      → IsTag orbit t
      → Strips orbit raw kept
      → Strips orbit (t ++ raw) kept

module _ (orbit : ℕ → ℕ) where
  pub Strips-append :
      {a b k l : List ℕ} → Strips orbit a k → Strips orbit b l → Strips orbit (a ++ b) (k ++ l)
  Strips-append nothing_left h = h
  Strips-append (keep c g) h = keep c (Strips-append g h)
  Strips-append {b = b} {l = l} (strip t {raw} {kept} i g) h =
      subst (λ r. Strips orbit r (kept ++ l)) (sym (append_assoc t raw b))
        (strip t i (Strips-append g h))

  pub Strips-all : (s : List ℕ) → Strips orbit s s
  Strips-all [] = nothing_left
  Strips-all (c ∷ s) = keep c (Strips-all s)
