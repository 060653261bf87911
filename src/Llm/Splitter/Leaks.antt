-- ===== src/Llm/Splitter/Leaks.antt =====
-- Tags that the splitter misses where a stream is cut in them.
use kubernetes_agent.Base.{ℕ, ◌≡◌, refl, List, [], ◌∷◌}
use kubernetes_agent.Text.{codes}
use kubernetes_agent.Llm.Splitter.{token, hold, split_stream}

-- the tags of more than eleven bytes, without the `>` that ends them
pub data IsLongTag : List ℕ → Type 0 where
  open_antml_think : IsLongTag (codes "<antml:think")
  open_antml_thinking : IsLongTag (codes "<antml:thinking")
  open_antml_thought : IsLongTag (codes "<antml:thought")
  close_antml_think : IsLongTag (codes "</antml:think")
  close_antml_thinking : IsLongTag (codes "</antml:thinking")
  close_antml_thought : IsLongTag (codes "</antml:thought")
  open_antthinking : IsLongTag (codes "<antthinking")
  close_antthinking : IsLongTag (codes "</antthinking")

module _ (orbit : ℕ → ℕ) where
  -- A tag that is longer than the prefix that the splitter holds back, and that a stream cuts before
  -- its `>`, is not recognised: its two pieces reach the user as text.
  pub split_stream-IsLongTag :
      (t : List ℕ)
      → IsLongTag t
      → split_stream orbit (t ∷ codes ">" ∷ []) ≡ token t ∷ token (codes ">") ∷ []
  unfolding split_stream hold
  split_stream-IsLongTag _ open_antml_think = refl
  split_stream-IsLongTag _ open_antml_thinking = refl
  split_stream-IsLongTag _ open_antml_thought = refl
  split_stream-IsLongTag _ close_antml_think = refl
  split_stream-IsLongTag _ close_antml_thinking = refl
  split_stream-IsLongTag _ close_antml_thought = refl
  split_stream-IsLongTag _ open_antthinking = refl
  split_stream-IsLongTag _ close_antthinking = refl
