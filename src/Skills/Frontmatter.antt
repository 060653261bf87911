-- ===== src/Skills/Frontmatter.antt =====
-- parseFrontmatter of internal/skills/loader.go.
pub mod Document
use kubernetes_agent.Base.{
  ℕ, String, Bool, true, false, List, [], ◌∷◌, Option, none, some, Result, ok, err, nat_eq, code,
  ◌||◌, ◌==◌, if◌then◌else◌,
}
use kubernetes_agent.Text.{split, has_prefix}

abbrev pub Fields : Type 0
Fields = List (String × String)

abbrev pub newline : ℕ
newline = b'\n'

-- a line, a newline and the rest
unfoldable pub line_before : String → String → String
line_before String.[] rest = String.◌∷◌ "\n" rest
line_before (String.◌∷◌ c s) rest = String.◌∷◌ c (line_before s rest)

-- strings.Join(lines, "\n")
unfoldable pub join_lines : List String → String
unfolding line_before
join_lines [] = ""
join_lines (l ∷ []) = l
join_lines (l ∷ m ∷ ls) = line_before l (join_lines (m ∷ ls))

-- the loop after the first line: the lines to the next one that starts with "---", and those after it;
-- where no line does, no body is taken
unfoldable pub split_front : List String → List String × List String
split_front [] = ([], [])
split_front (l ∷ ls) =
    let rest = split_front ls in if has_prefix l "---" then ([], ls) else (l ∷ rest.0, rest.1)

abbrev pub after_first : List String → List String
after_first [] = []
after_first (l ∷ ls) = ls

-- `decode` is yaml.Unmarshal into a map of texts
module _ (decode : String → Option Fields) where
  abbrev pub with_body : Option Fields → String → Option (Fields × String)
  with_body none body = none
  with_body (some f) body = some (f, body)

  abbrev pub parse_parts : List String × List String → Option (Fields × String)
  parse_parts ([], body) = some ([], join_lines body)
  parse_parts (l ∷ ls, body) = with_body (decode (join_lines (l ∷ ls))) (join_lines body)

  -- `none` is the YAML library's error
  unfoldable pub parse_frontmatter : String → Option (Fields × String)
  unfolding split split_front join_lines
  parse_frontmatter content =
      if has_prefix content "---"
      then parse_parts (split_front (after_first (split newline content)))
      else some ([], content)
