-- ===== src/Llm/Splitter/Counts.antt =====
-- Characters counted, in texts and in the texts of events.
use kubernetes_agent.Base.{
  ℕ, ◌+◌, ◌≡◌, refl, sym, ap, ◌∙◌, Bool, true, false, List, [], ◌∷◌, ◌++◌, append-nil, append_assoc,
  nat_eq, arith, if◌then◌else◌,
}
use kubernetes_agent.Llm.Splitter.{Event, token, reasoning, emit_token, emit_reasoning, flushed}

-- how often a character occurs
unfoldable pub count : ℕ → List ℕ → ℕ
count c [] = 0
count c (d ∷ s) = (if nat_eq c d then 1 else 0) + count c s

abbrev pub text_of : Event → List ℕ
text_of (token s) = s
text_of (reasoning s) = s

-- the texts of the events, joined
abbrev pub texts : List Event → List ℕ
texts [] = []
texts (e ∷ es) = text_of e ++ texts es

abbrev pub concat : List (List ℕ) → List ℕ
concat [] = []
concat (s ∷ ss) = s ++ concat ss

pub count-append : (c : ℕ) (s t : List ℕ) → count c (s ++ t) ≡ count c s + count c t
unfolding count
count-append c [] t = omega arith
count-append c (d ∷ s) t = omega (arith, count-append c s t)

pub texts-append : (es fs : List Event) → texts (es ++ fs) ≡ texts es ++ texts fs
texts-append [] fs = refl
texts-append (e ∷ es) fs =
    ap (λ l. text_of e ++ l) (texts-append es fs)
    ∙ sym (append_assoc (text_of e) (texts es) (texts fs))

pub texts-emit_token : (s : List ℕ) → texts (emit_token s) ≡ s
texts-emit_token [] = refl
texts-emit_token (c ∷ s) = append-nil (c ∷ s)

pub texts-emit_reasoning : (s : List ℕ) → texts (emit_reasoning s) ≡ s
texts-emit_reasoning [] = refl
texts-emit_reasoning (c ∷ s) = append-nil (c ∷ s)

pub texts-flushed : (b : Bool) (s : List ℕ) → texts (flushed b s) ≡ s
texts-flushed b [] = refl
texts-flushed true (c ∷ s) = append-nil (c ∷ s)
texts-flushed false (c ∷ s) = append-nil (c ∷ s)

pub emit_token-count : (c : ℕ) (s : List ℕ) → count c (texts (emit_token s)) ≡ count c s
emit_token-count c s = ap (count c) (texts-emit_token s)

pub count-nil : (c : ℕ) → count c [] ≡ 0
unfolding count
count-nil c = refl
