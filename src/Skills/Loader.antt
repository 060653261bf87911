-- ===== src/Skills/Loader.antt =====
-- internal/skills/loader.go and prompt.go, and internal/tools/agent/skill_tool.go. The directories of
-- the loader are rooted paths, once their ~ is expanded.
use Prim.Native.String.{◌++◌}
use kubernetes_agent.Base.{
  ℕ, String, Bool, List, [], ◌∷◌, Option, none, some, nat_eq, code, ◌==◌, if◌then◌else◌,
}
use mathlib.Core.List
use kubernetes_agent.Text.{has_prefix, contains_text}
use kubernetes_agent.Skills.Paths.{print, join_path}
use kubernetes_agent.Skills.FsRead.{
  FileResult, file, not_exist, not_permitted, io_error, after_tilde,
}
use kubernetes_agent.Skills.Frontmatter.{Fields, parse_frontmatter}

pub record SkillEntry : Type 0 where
  pub name : String
  pub description : String
  pub file_path : String
  pub base_dir : String
  pub source : String
  pub content : String
  pub frontmatter : Fields

pub record DirEntry : Type 0 where
  pub name : String
  pub is_dir : Bool

-- `exists` is false where os.Stat gives IsNotExist
pub record FileSystem : Type 0 where
  pub home : Option String
  pub read_dir : String → Option (List DirEntry)
  pub exists : String → Bool
  pub read_file : String → FileResult

-- expandHome
unfoldable pub expand_home : Option String → String → String
unfolding join_path
expand_home none p = p
expand_home (some home) p =
    if p == "~"
    then home
    else if has_prefix p "~/"
    then print (join_path home (after_tilde p))
    else p

-- a key that is not there reads as the empty text
unfoldable pub field_of : String → Fields → String
field_of k [] = ""
field_of k ((j, v) ∷ m) = let rest = field_of k m in if j == k then v else rest

unfoldable pub source_of : String → String
source_of dir = if contains_text dir "/.claude/" then "project" else "user"

abbrev pub skill_path : String → String → String
skill_path dir name = print (join_path dir (name ++ "/SKILL.md"))

abbrev pub text_of : FileResult → Option String
text_of (file text) = some text
text_of not_exist = none
text_of not_permitted = none
text_of (io_error text) = none

module _ (decode : String → Option Fields) (fs : FileSystem) where
  abbrev pub make_entry : String → String → Option (Fields × String) → Option SkillEntry
  make_entry path dir none = none
  make_entry path dir (some (f, body)) =
      let e : SkillEntry = record {
        name = field_of "name" f;
        description = field_of "description" f;
        file_path = path;
        base_dir = dir;
        source = source_of dir;
        content = body;
        frontmatter = f;
      } in
      some e

  abbrev pub entry_from : String → String → Option String → Option SkillEntry
  entry_from path dir none = none
  entry_from path dir (some text) = make_entry path dir (parse_frontmatter decode text)

  -- loadSkillFile
  unfoldable pub load_skill_file : String → String → Option SkillEntry
  unfolding field_of source_of parse_frontmatter
  load_skill_file path dir = entry_from path dir (text_of (fs.read_file path))

  abbrev pub cons_some : Option SkillEntry → List SkillEntry → List SkillEntry
  cons_some none rest = rest
  cons_some (some e) rest = e ∷ rest

  -- the loop of loadFromDir
  unfoldable pub load_entries : String → List DirEntry → List SkillEntry
  unfolding load_skill_file join_path
  load_entries dir [] = []
  load_entries dir (e ∷ es) =
      let rest = load_entries dir es in
      let path = skill_path dir e.name in
      if e.is_dir
      then (if fs.exists path then cons_some (load_skill_file path dir) rest else rest)
      else rest

  abbrev pub load_from : String → Option (List DirEntry) → List SkillEntry
  load_from dir none = []
  load_from dir (some es) = load_entries dir es

  -- LoadAll: a directory that cannot be read is passed over
  unfoldable pub load_all : List String → List SkillEntry
  unfolding load_entries expand_home
  load_all [] = []
  load_all (d ∷ dirs) =
      let dir = expand_home fs.home d in List.◌++◌ (load_from dir (fs.read_dir dir)) (load_all dirs)

-- LoadSkillOutput
pub data LoadSkillOutput : Type 0 where
  loaded : String → String → String → LoadSkillOutput
  failed : String → LoadSkillOutput

abbrev pub from_disk : SkillEntry → FileResult → LoadSkillOutput
from_disk e (file text) = loaded e.name e.description text
from_disk e not_exist = failed "failed to read SKILL.md"
from_disk e not_permitted = failed "failed to read SKILL.md"
from_disk e (io_error text) = failed "failed to read SKILL.md"

-- the skill that was found: an empty body is read from the disk, with its frontmatter
unfoldable pub with_content : (String → FileResult) → SkillEntry → LoadSkillOutput
with_content read e =
    if e.content == ""
    then from_disk e (read e.file_path)
    else loaded e.name e.description e.content

unfoldable pub skill_named : String → List SkillEntry → Option SkillEntry
skill_named name [] = none
skill_named name (e ∷ es) =
    let rest = skill_named name es in if e.name == name then some e else rest

-- SkillTool.Handle; an input that is not JSON is `none`, and the texts of the errors are shortened
unfoldable pub load_skill :
    (String → FileResult) → List SkillEntry → Option String → LoadSkillOutput
unfolding skill_named with_content
load_skill read skills none = failed "invalid input"
load_skill read skills (some name) =
    if name == "" then failed "name is required" else elim (skill_named name skills) [
      | none ↦ failed "skill not found"
      | some e ↦ with_content read e
    ]

-- strings.ReplaceAll of one character
unfoldable pub replace_char : ℕ → String → String → String
replace_char k text String.[] = ""
replace_char k text (String.◌∷◌ c s) =
    let rest = replace_char k text s in
    if nat_eq (code c) k then text ++ rest else String.◌∷◌ c rest

-- xmlEscape
unfoldable pub xml_escape : String → String
unfolding replace_char
xml_escape s =
    let amp = replace_char b'&' "&amp;" s in
    let lt = replace_char b'<' "&lt;" amp in
    let gt = replace_char b'>' "&gt;" lt in replace_char b'"' "&quot;" gt

abbrev pub skill_item : SkillEntry → String
skill_item e =
    "\n  <skill>\n    <name>"
    ++ (xml_escape e.name
        ++ ("</name>\n    <description>"
            ++ (xml_escape e.description ++ "</description>\n  </skill>")))

unfoldable pub skill_items : List SkillEntry → String
unfolding xml_escape
skill_items [] = ""
skill_items (e ∷ es) = skill_item e ++ skill_items es

-- FormatSkillsForPrompt; `preamble` is its fixed text up to the list
unfoldable pub format_skills_for_prompt : String → List SkillEntry → String
unfolding skill_items
format_skills_for_prompt preamble [] = ""
format_skills_for_prompt preamble (e ∷ es) =
    preamble ++ ("\n\n<available_skills>" ++ (skill_items (e ∷ es) ++ "\n</available_skills>"))
