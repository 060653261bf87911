-- ===== src/Skills/FsRead/Inside.antt =====
-- Which files fs_read opens.
use kubernetes_agent.Base.{
  String, true, List, Option, none, some, ◌≡◌, sym, All, arith, inl, inr, Bool-cases, Option-cases,
  ◌==◌,
}
use kubernetes_agent.Text.{has_prefix}
use kubernetes_agent.Skills.Paths.{print, abs_path, IsProper, abs_path-IsProper}
use kubernetes_agent.Skills.FsRead.{
  FileResult, answer_file, FsReadTool, expanded, read_checked, handle,
}

-- a path that goes down from the root, spelled with the allowed directory in front
pub record IsInside (t : FsReadTool) (path : String) : Type 0 where
  pub elements : List String
  pub printed : path ≡ print elements
  pub proper : All IsProper elements
  pub allowed : has_prefix path t.allowed_dir ≡ true

module _ (t : FsReadTool) (read : String → FileResult) where
  read_checked-IsInside :
      (path file_path : String)
      → (read_checked t read path).1 ≡ some file_path
      → IsInside t file_path × ((read_checked t read path).0 ≡ answer_file (read file_path))
  unfolding read_checked
  read_checked-IsInside path file_path h =
      let elements = abs_path t.cwd path in
      elim (Bool-cases (has_prefix (print elements) t.allowed_dir)) [
        | inl e ↦
            let same : print elements ≡ file_path = ground (arith, e, h) in
            (
              record {
                elements = elements;
                printed = sym same;
                proper = abs_path-IsProper t.cwd path;
                allowed = rw (← same) e;
              },
              rw (e, same),
            )
        | inr e ↦ ground (arith, e, h)
      ]

  -- If fs_read opens a file, then by a path that goes down from the root only, with no element that is
  -- empty, `.` or `..`, and that starts with the text of the allowed directory; and its answer is the
  -- content of that file or the error of reading it.
  pub handle-IsInside :
      (input : Option String) (file_path : String)
      → (handle t read input).1 ≡ some file_path
      → IsInside t file_path × ((handle t read input).0 ≡ answer_file (read file_path))
  unfolding handle
  handle-IsInside none file_path h = cc
  handle-IsInside (some path) file_path h = elim (Bool-cases (path == "")) [
    | inl e ↦ ground (arith, e, h)
    | inr e ↦ elim (Option-cases (expanded t path)) [
      | inl g ↦ ground (arith, e, g, h)
      | inr (p, g) ↦
          let same : read_checked t read p ≡ handle t read (some path) = ground (arith, e, g) in
          let h' : (read_checked t read p).1 ≡ some file_path = rw same h in
          rw (← same) (read_checked-IsInside p file_path h')
    ]
  ]
