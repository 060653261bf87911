-- ===== src/Agent/Runner/Pairs.antt =====
-- Tool calls and their results in one stream.
use kubernetes_agent.Base.{
  ◌≡◌, refl, sym, ap, ◌∙◌, String, List, [], ◌∷◌, ◌++◌, append-nil, Result, ok, err,
}
use kubernetes_agent.Agent.Transcript.{Part, text, reasoning, tool_call, tool_result}
use kubernetes_agent.Agent.Runner.{
  Call, Item, token_item, reasoning_item, call_item, end_item, error_item, other_item, broken_item,
  Event, Env, Turn, new_turn, dispatch_in, answered, consume,
}

-- a call's id and the tool's name
abbrev pub CallKey : Type 0
CallKey = String × String

abbrev pub called : List Part → List CallKey
called [] = []
called (tool_call id name input ∷ ps) = (id, name) ∷ called ps
called (text s ∷ ps) = called ps
called (reasoning s ∷ ps) = called ps
called (tool_result id name output is_error ∷ ps) = called ps

abbrev pub resulted : List Part → List CallKey
resulted [] = []
resulted (tool_result id name output is_error ∷ ps) = (id, name) ∷ resulted ps
resulted (text s ∷ ps) = resulted ps
resulted (reasoning s ∷ ps) = resulted ps
resulted (tool_call id name input ∷ ps) = resulted ps

called-append : (a b : List Part) → called (a ++ b) ≡ called a ++ called b
called-append [] b = refl
called-append (tool_call id name input ∷ a) b = ap (λ l. (id, name) ∷ l) (called-append a b)
called-append (text s ∷ a) b = called-append a b
called-append (reasoning s ∷ a) b = called-append a b
called-append (tool_result id name output is_error ∷ a) b = called-append a b

resulted-append : (a b : List Part) → resulted (a ++ b) ≡ resulted a ++ resulted b
resulted-append [] b = refl
resulted-append (tool_result id name output is_error ∷ a) b =
    ap (λ l. (id, name) ∷ l) (resulted-append a b)
resulted-append (text s ∷ a) b = resulted-append a b
resulted-append (reasoning s ∷ a) b = resulted-append a b
resulted-append (tool_call id name input ∷ a) b = resulted-append a b

abbrev pub IsPaired : {W : Type 0} → Turn W → Type 0
IsPaired t = called t.assistant ≡ resulted t.results

module _ {W : Type 0} (env : Env W) where
  answered-IsPaired :
      (c : Call) (t : Turn W) (r : Result String String × W)
      → IsPaired t
      → IsPaired (answered env c t r)
  answered-IsPaired c t (ok output, w) h =
      called-append t.assistant (tool_call c.id c.name c.input ∷ [])
      ∙ ap (λ l. l ++ (c.id, c.name) ∷ []) h
      ∙ sym (resulted-append t.results _)
  answered-IsPaired c t (err e, w) h =
      called-append t.assistant (tool_call c.id c.name c.input ∷ [])
      ∙ ap (λ l. l ++ (c.id, c.name) ∷ []) h
      ∙ sym (resulted-append t.results _)

  spoken-IsPaired :
      (t : Turn W) (p : Part)
      → called (p ∷ []) ≡ []
      → IsPaired t
      → called (t.assistant ++ p ∷ []) ≡ resulted t.results
  spoken-IsPaired t p none_called h =
      called-append t.assistant (p ∷ [])
      ∙ ap (λ l. called t.assistant ++ l) none_called
      ∙ append-nil (called t.assistant)
      ∙ h

  kept-IsPaired : (items : List Item) (t : Turn W) → IsPaired t → IsPaired (consume env items t).1
  unfolding consume
  kept-IsPaired [] t h = h
  kept-IsPaired (token_item s ∷ items) t h =
      kept-IsPaired items _ (spoken-IsPaired t (text s) refl h)
  kept-IsPaired (reasoning_item s ∷ items) t h =
      kept-IsPaired items _ (spoken-IsPaired t (reasoning s) refl h)
  kept-IsPaired (call_item c ∷ items) t h =
      kept-IsPaired items _ (answered-IsPaired c t (dispatch_in env env.tools c t.world) h)
  kept-IsPaired (end_item ∷ items) t h = h
  kept-IsPaired (error_item reason ∷ items) t h = h
  kept-IsPaired (other_item ∷ items) t h = kept-IsPaired items t h
  kept-IsPaired (broken_item e ∷ items) t h = h

  -- However a stream ends, the results that consumeStream gathers answer the tool calls that it
  -- gathers one for one and in order, with the same id and name, also for a tool that fails or that
  -- is not registered.
  pub consume-IsPaired :
      (items : List Item) (w : W) (events : List Event)
      → IsPaired (consume env items (new_turn w events)).1
  consume-IsPaired items w events = kept-IsPaired items (new_turn w events) refl

  -- What a stream delivers after its end is lost: consumeStream returns at the end event, with the
  -- same state whatever comes after it.
  pub consume-end_item :
      (before after : List Item) (t : Turn W)
      → consume env (before ++ end_item ∷ after) t ≡ consume env (before ++ end_item ∷ []) t
  unfolding consume
  consume-end_item [] after t = refl
  consume-end_item (token_item s ∷ before) after t = consume-end_item before after _
  consume-end_item (reasoning_item s ∷ before) after t = consume-end_item before after _
  consume-end_item (call_item c ∷ before) after t = consume-end_item before after _
  consume-end_item (end_item ∷ before) after t = refl
  consume-end_item (error_item reason ∷ before) after t = refl
  consume-end_item (other_item ∷ before) after t = consume-end_item before after t
  consume-end_item (broken_item e ∷ before) after t = refl
