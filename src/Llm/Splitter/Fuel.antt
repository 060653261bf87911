-- ===== src/Llm/Splitter/Fuel.antt =====
-- The splitter's loop has enough fuel.
use kubernetes_agent.Base.{ℕ, ◌≡◌, List, ◌++◌, none, some}
use kubernetes_agent.Llm.Splitter.{Event, Found, Splitter, find_tag, finish, at_tag}

module _ (orbit : ℕ → ℕ) where
  -- the rounds of the loop on a text: one at each tag, until no tag is left
  pub data Ends : Splitter → List ℕ → List Event × Splitter → Type 0 where
    last_round :
        {s : Splitter} {raw : List ℕ} {r : List Event × Splitter}
        → find_tag orbit raw ≡ none
        → r ≡ finish s raw
        → Ends s raw r
    round :
        {s : Splitter} {raw : List ℕ} {r : List Event × Splitter} (f : Found)
        (more : List Event × Splitter)
        → find_tag orbit raw ≡ some f
        → Ends (at_tag s f).1 f.rest more
        → r ≡ ((at_tag s f).0 ++ more.0, more.1)
        → Ends s raw r
