-- ===== src/Skills/Tests.antt =====
-- The theorems on fs_read and the skill files at concrete inputs.
use kubernetes_agent.Base.{String, [], ◌∷◌, ◌++◌, Option, some, ◌≡◌, refl}
use kubernetes_agent.Text.{has_prefix}
use kubernetes_agent.Skills.FsRead.{FsReadTool, FileResult, file, answer_file, handle}
use kubernetes_agent.Skills.FsRead.Inside.{IsInside, handle-IsInside}
use kubernetes_agent.Skills.Frontmatter.{Fields, join_lines, parse_frontmatter}
use kubernetes_agent.Skills.Frontmatter.Document.{has_char, parse_frontmatter-join_lines}

abbrev tool : FsReadTool
tool = record { allowed_dir = "/h/skills"; home = some "/h"; cwd = "/" }

abbrev read : String → FileResult
read path = file path

handle-IsInside_example :
    IsInside tool "/h/skills/a.md"
    × ((handle tool read (some "~/x/../skills/./a.md")).0 ≡ answer_file (read "/h/skills/a.md"))
handle-IsInside_example =
    handle-IsInside tool read (some "~/x/../skills/./a.md") "/h/skills/a.md"
      (unfold handle has_prefix in refl)

abbrev decode : String → Option Fields
decode yaml = some (("name", yaml) ∷ [])

parse_frontmatter-join_lines_example :
    parse_frontmatter decode (join_lines ("---" ∷ "name: a" ∷ [] ++ "---" ∷ "# A" ∷ "" ∷ []))
    ≡ some (("name", "name: a") ∷ [], join_lines ("# A" ∷ "" ∷ []))
parse_frontmatter-join_lines_example =
    parse_frontmatter-join_lines decode "name: a" [] ("# A" ∷ "" ∷ []) (("name", "name: a") ∷ [])
      (unfold has_char has_prefix in ((refl, refl), tt)) (unfold has_char in (refl, (refl, tt)))
      (unfold join_lines in refl)
