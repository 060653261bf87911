-- ===== src/Skills/FsRead.antt =====
-- internal/tools/agent/fs_tool.go. JSON is outside: the input is what the decoder gives.
pub mod Inside
use kubernetes_agent.Base.{
  ℕ, zero, suc, String, Bool, true, false, List, Option, none, some, ◌==◌, if◌then◌else◌,
}
use kubernetes_agent.Text.{has_prefix}
use kubernetes_agent.Skills.Paths.{print, join_path, abs_path}

-- the answer, a JSON object with the content or the error
pub data Answer : Type 0 where
  content : String → Answer
  error : String → Answer

-- what os.ReadFile gives
pub data FileResult : Type 0 where
  file : String → FileResult
  not_exist not_permitted : FileResult
  io_error : String → FileResult

abbrev pub answer_file : FileResult → Answer
answer_file (file text) = content text
answer_file not_exist = error "file not found"
answer_file not_permitted = error "permission denied"
answer_file (io_error text) = error text

-- path[2:] of a path that starts with "~/"
abbrev pub after_tilde : String → String
after_tilde String.[] = ""
after_tilde (String.◌∷◌ c String.[]) = ""
after_tilde (String.◌∷◌ c (String.◌∷◌ d s)) = s

-- the directory that is allowed, $HOME if it is set, and the working directory
pub record FsReadTool : Type 0 where
  pub allowed_dir : String
  pub home : Option String
  pub cwd : String

-- the path with its ~ expanded
unfoldable pub expanded : FsReadTool → String → Option String
unfolding join_path
expanded t path =
    if has_prefix path "~/"
    then (elim t.home [
      | none ↦ none
      | some home ↦ some (print (join_path home (after_tilde path)))
    ])
    else some path

-- the answer, and the path of the file that was read, if one was
unfoldable pub read_checked : FsReadTool → (String → FileResult) → String → Answer × Option String
unfolding abs_path
read_checked t read path =
    let absolute = print (abs_path t.cwd path) in
    if has_prefix absolute t.allowed_dir
    then (answer_file (read absolute), some absolute)
    else (error "access denied: path outside allowed directory", none)

-- FSReadTool.Handle; an input that is not JSON is `none`
unfoldable pub handle : FsReadTool → (String → FileResult) → Option String → Answer × Option String
unfolding expanded read_checked
handle t read none = (error "invalid input", none)
handle t read (some path) =
    if path == "" then (error "path is required", none) else elim (expanded t path) [
      | none ↦ (error "cannot determine home directory", none)
      | some p ↦ read_checked t read p
    ]
