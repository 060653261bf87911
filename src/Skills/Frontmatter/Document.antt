-- ===== src/Skills/Frontmatter/Document.antt =====
-- A document that is put together from its frontmatter and its body.
use kubernetes_agent.Base.{
  ℕ, String, Bool, true, false, List, [], ◌∷◌, ◌++◌, Option, some, ◌≡◌, refl, ap, ◌∙◌, nat_eq, code,
  All, arith, inl, inr, Bool-cases, ◌||◌,
}
use kubernetes_agent.Text.{split, has_prefix}
use kubernetes_agent.Skills.Frontmatter.{
  Fields, newline, line_before, join_lines, split_front, with_body, parse_parts, parse_frontmatter,
}

unfoldable pub has_char : ℕ → String → Bool
has_char k String.[] = false
has_char k (String.◌∷◌ c s) = nat_eq (code c) k || has_char k s

-- one line, and one that does not end a frontmatter
abbrev pub IsLine : String → Type 0
IsLine l = has_char newline l ≡ false

abbrev pub IsFrontLine : String → Type 0
IsFrontLine l = (has_char newline l ≡ false) × (has_prefix l "---" ≡ false)

split-line_before :
    (l rest : String)
    → has_char newline l ≡ false
    → split newline (line_before l rest) ≡ l ∷ split newline rest
unfolding split line_before has_char
split-line_before String.[] rest h = refl
split-line_before (String.◌∷◌ c s) rest h = elim (Bool-cases (nat_eq (code c) newline)) [
  | inl e ↦ ground (arith, e, h)
  | inr e ↦
      let h' : has_char newline s ≡ false = ground (arith, e, h) in
      rw (e, split-line_before s rest h')
]

split-line : (l : String) → has_char newline l ≡ false → split newline l ≡ l ∷ []
unfolding split has_char
split-line String.[] h = refl
split-line (String.◌∷◌ c s) h = elim (Bool-cases (nat_eq (code c) newline)) [
  | inl e ↦ ground (arith, e, h)
  | inr e ↦ let h' : has_char newline s ≡ false = ground (arith, e, h) in rw (e, split-line s h')
]

-- splitting at the newlines undoes the joining
split-join_lines :
    (l : String) (ls : List String)
    → All IsLine (l ∷ ls)
    → split newline (join_lines (l ∷ ls)) ≡ l ∷ ls
unfolding join_lines
split-join_lines l [] h = split-line l h.0
split-join_lines l (m ∷ ls) h =
    split-line_before l (join_lines (m ∷ ls)) h.0 ∙ ap (λ r. l ∷ r) (split-join_lines m ls h.1)

split_front-document :
    (front body : List String)
    → All IsFrontLine front
    → split_front (front ++ "---" ∷ body) ≡ (front, body)
unfolding split_front has_prefix
split_front-document [] body h = refl
split_front-document (l ∷ front) body h = ground (arith, h.0.1, split_front-document front body h.1)

All-document :
    (front body : List String)
    → All IsFrontLine front
    → All IsLine body
    → All IsLine (front ++ "---" ∷ body)
unfolding has_char
All-document [] body h k = (refl, k)
All-document (l ∷ front) body h k = (h.0.0, All-document front body h.1 k)

document-starts :
    (front body : List String)
    → has_prefix (join_lines ("---" ∷ front ++ "---" ∷ body)) "---" ≡ true
unfolding has_prefix join_lines
document-starts [] body = refl
document-starts (l ∷ front) body = refl

module _ (decode : String → Option Fields) where
  parse_frontmatter-document :
      (front body : List String)
      → All IsFrontLine front
      → All IsLine body
      → parse_frontmatter decode (join_lines ("---" ∷ front ++ "---" ∷ body))
        ≡ parse_parts decode (front, body)
  unfolding parse_frontmatter
  parse_frontmatter-document front body h k =
      let lines : All IsLine ("---" ∷ front ++ "---" ∷ body) =
        unfold has_char in (refl, All-document front body h k) in
      rw (
        document-starts front body,
        split-join_lines "---" (front ++ "---" ∷ body) lines,
        split_front-document front body h,
      )

  -- A document of a line of dashes, some lines of frontmatter, a line of dashes and a body is read as the
  -- fields that the YAML library reads from the frontmatter, if it does, and the body as it was; if no
  -- line of the frontmatter starts with dashes.
  pub parse_frontmatter-join_lines :
      (f : String) (front body : List String) (fields : Fields)
      → All IsFrontLine (f ∷ front)
      → All IsLine body
      → decode (join_lines (f ∷ front)) ≡ some fields
      → parse_frontmatter decode (join_lines ("---" ∷ f ∷ front ++ "---" ∷ body))
        ≡ some (fields, join_lines body)
  parse_frontmatter-join_lines f front body fields h k d =
      parse_frontmatter-document (f ∷ front) body h k
      ∙ ap (λ o. with_body decode o (join_lines body)) d
