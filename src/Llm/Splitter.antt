-- ===== src/Llm/Splitter.antt =====
-- thinkSplitter of internal/llm/fantasy.go. Texts are code points, lengths are those of their UTF-8
-- bytes, and `orbit` is the Unicode table that `(?i)` folds by.
pub mod Tags
pub mod Counts
pub mod Hold
pub mod Leaks
pub mod Strips
pub mod Conserves
pub mod Fuel
use kubernetes_agent.Base.{
  ℕ, zero, suc, ◌+◌, Bool, true, false, not, List, [], ◌∷◌, ◌++◌, Option, none, some, length, ltb,
  nat_eq, if◌then◌else◌, String, ◌&&◌,
}
use kubernetes_agent.Text.{codes, fold_rune, byte_len}

-- EventToken and EventReasoning with their text
pub data Event : Type 0 where
  token : List ℕ → Event
  reasoning : List ℕ → Event

-- the texts that thinkingTagRE matches, in lower case
abbrev pub tag_forms : List (List ℕ)
tag_forms =
    codes "<think>"
    ∷ codes "<thinking>"
    ∷ codes "<thought>"
    ∷ codes "<antml:think>"
    ∷ codes "<antml:thinking>"
    ∷ codes "<antml:thought>"
    ∷ codes "<antthinking>"
    ∷ codes "</think>"
    ∷ codes "</thinking>"
    ∷ codes "</thought>"
    ∷ codes "</antml:think>"
    ∷ codes "</antml:thinking>"
    ∷ codes "</antml:thought>"
    ∷ codes "</antthinking>"
    ∷ []

-- `len("<thinking>")`
abbrev pub max_tag_prefix_len : ℕ
max_tag_prefix_len = 10

-- a match: `raw[loc[0]:loc[1]]` and what follows it
pub record Cut : Type 0 where
  pub tag : List ℕ
  pub rest : List ℕ

abbrev cut_after : ℕ → Option Cut → Option Cut
cut_after c none = none
cut_after c (some m) = some (record { tag = c ∷ m.tag; rest = m.rest })

-- a match with what precedes it
pub record Found : Type 0 where
  pub prefix : List ℕ
  pub tag : List ℕ
  pub rest : List ℕ

abbrev pub found_after : ℕ → Option Found → Option Found
found_after c none = none
found_after c (some f) = some (record { prefix = c ∷ f.prefix; tag = f.tag; rest = f.rest })

abbrev pub found_here : Cut → Found
found_here m = record { prefix = []; tag = m.tag; rest = m.rest }

-- isOpenTag
unfoldable pub is_open_tag : List ℕ → Bool
is_open_tag [] = true
is_open_tag (c ∷ []) = true
is_open_tag (c ∷ d ∷ s) = not (nat_eq c b'<' && nat_eq d b'/')

module _ (orbit : ℕ → ℕ) where
  -- one form at the start of a text
  unfoldable pub take_form : List ℕ → List ℕ → Option Cut
  unfolding fold_rune
  take_form [] raw = some (record { tag = []; rest = raw })
  take_form (f ∷ fs) [] = none
  take_form (f ∷ fs) (c ∷ s) =
      let more = take_form fs s in if nat_eq (fold_rune orbit c) f then cut_after c more else none

  unfoldable pub take_first : List (List ℕ) → List ℕ → Option Cut
  unfolding take_form
  take_first [] raw = none
  take_first (form ∷ forms) raw = elim (take_form form raw) [
    | some m ↦ some m
    | none ↦ take_first forms raw
  ]

  -- thinkingTagRE.FindStringIndex: no form is a prefix of another, so one at most matches at a place
  unfoldable pub find_tag : List ℕ → Option Found
  unfolding take_first
  find_tag [] = none
  find_tag (c ∷ s) = elim (take_first tag_forms (c ∷ s)) [
    | some m ↦ some (found_here m)
    | none ↦ found_after c (find_tag s)
  ]

-- `raw[:cut]` and `raw[cut:]` at the last `<`
abbrev pub split_after : ℕ → List ℕ → Option (List ℕ × List ℕ) → Option (List ℕ × List ℕ)
split_after c s (some (a, b)) = some (c ∷ a, b)
split_after c s none = if nat_eq c b'<' then some ([], c ∷ s) else none

unfoldable pub split_last : List ℕ → Option (List ℕ × List ℕ)
split_last [] = none
split_last (c ∷ s) = split_after c s (split_last s)

-- what is passed on of a text without a tag, and what is held back
abbrev pub hold_at : List ℕ → Option (List ℕ × List ℕ) → List ℕ × List ℕ
unfolding byte_len
hold_at raw none = (raw, [])
hold_at raw (some (a, b)) = if ltb max_tag_prefix_len (byte_len b) then (raw, []) else (a, b)

unfoldable pub hold : List ℕ → List ℕ × List ℕ
unfolding hold_at split_last
hold raw = hold_at raw (split_last raw)

pub record Splitter : Type 0 where
  pub inside : Bool
  pub buf : List ℕ
  pub reasoning : List ℕ

abbrev pub zero_splitter : Splitter
zero_splitter = record { inside = false; buf = []; reasoning = [] }

-- emitToken and flushReasoning
abbrev pub emit_token : List ℕ → List Event
emit_token [] = []
emit_token (c ∷ s) = token (c ∷ s) ∷ []

abbrev pub emit_reasoning : List ℕ → List Event
emit_reasoning [] = []
emit_reasoning (c ∷ s) = reasoning (c ∷ s) ∷ []

-- the loop where it finds no tag
unfoldable pub finish : Splitter → List ℕ → List Event × Splitter
unfolding hold
finish s raw =
    let (now, later) = hold raw in
    if s.inside
    then ([], record { inside = true; buf = later; reasoning = s.reasoning ++ now })
    else (emit_token now, record { inside = false; buf = later; reasoning = s.reasoning })

-- the loop's body at a tag
unfoldable pub at_tag : Splitter → Found → List Event × Splitter
unfolding is_open_tag
at_tag s f =
    if is_open_tag f.tag
    then (emit_token f.prefix, record s { inside = true })
    else (emit_reasoning (s.reasoning ++ f.prefix), record s { inside = false; reasoning = [] })

module _ (orbit : ℕ → ℕ) where
  -- the loop, with fuel
  unfoldable pub loop : ℕ → Splitter → List ℕ → List Event × Splitter
  unfolding find_tag finish at_tag
  loop zero s raw = ([], record s { buf = raw })
  loop (suc n) s raw = elim (find_tag orbit raw) [
    | none ↦ finish s raw
    | some f ↦
        let (events, s') = at_tag s f in let (more, s'') = loop n s' f.rest in (events ++ more, s'')
  ]

  -- feed: a tag is not empty, so the text's length is enough fuel
  unfoldable pub feed : Splitter → List ℕ → List Event × Splitter
  unfolding loop
  feed s delta = loop (suc (length (s.buf ++ delta))) (record s { buf = [] }) (s.buf ++ delta)

-- flush
abbrev pub flushed : Bool → List ℕ → List Event
flushed inside [] = []
flushed true (c ∷ s) = reasoning (c ∷ s) ∷ []
flushed false (c ∷ s) = token (c ∷ s) ∷ []

unfoldable pub flush : Splitter → List Event × Splitter
flush s = (flushed s.inside (s.reasoning ++ s.buf), record s { buf = []; reasoning = [] })

-- the deltas of one stream in turn, then flush
module _ (orbit : ℕ → ℕ) where
  unfoldable pub feed_all : Splitter → List (List ℕ) → List Event × Splitter
  unfolding feed
  feed_all s [] = ([], s)
  feed_all s (delta ∷ deltas) =
      let (events, s') = feed orbit s delta in
      let (more, s'') = feed_all s' deltas in (events ++ more, s'')

  unfoldable pub split_stream : List (List ℕ) → List Event
  unfolding feed_all flush
  split_stream deltas = let (events, s) = feed_all zero_splitter deltas in events ++ (flush s).0
