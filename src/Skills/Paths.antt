-- ===== src/Skills/Paths.antt =====
-- What the code uses of Go's path/filepath on Unix: rooted paths as the lists of their elements.
-- $HOME and the working directory are rooted.
use Prim.Native.String.{◌++◌}
use kubernetes_agent.Base.{
  String, false, List, [], ◌∷◌, ◌≡◌, ◌≢◌, All, arith, inl, inr, Bool-cases, eq_iff, ◌==◌, ◌||◌,
  if◌then◌else◌,
}
use kubernetes_agent.Text.{split, has_prefix}

-- one element of a path after those of a rooted path, the last first: `.` and the empty one stay, `..`
-- goes up, and stays at the root
abbrev pub up : List String → List String
up [] = []
up (e ∷ done) = done

unfoldable pub enter : String → List String → List String
enter e done = if e == "" || e == "." then done else if e == ".." then up done else e ∷ done

unfoldable pub enter_all : List String → List String → List String
unfolding enter
enter_all [] done = done
enter_all (e ∷ es) done = enter_all es (enter e done)

-- Clean of a rooted path: its elements, the last first
unfoldable pub clean : String → List String
unfolding split enter_all
clean path = enter_all (split b'/' path) []

-- the text of a rooted path
abbrev pub print_onto : List String → String → String
print_onto [] rest = rest
print_onto (e ∷ done) rest = print_onto done ("/" ++ (e ++ rest))

abbrev pub print : List String → String
print [] = "/"
print (e ∷ done) = print_onto (e ∷ done) ""

-- Join of a rooted path with a text
unfoldable pub join_path : String → String → List String
unfolding clean
join_path dir rest = clean (dir ++ ("/" ++ rest))

-- Abs, in the working directory `cwd`
unfoldable pub abs_path : String → String → List String
unfolding clean join_path
abs_path cwd path = if has_prefix path "/" then clean path else join_path cwd path

-- an element that names a file or a directory below
abbrev pub IsProper : String → Type 0
IsProper e = (e ≢ "") × (e ≢ ".") × (e ≢ "..")

up-IsProper : (done : List String) → All IsProper done → All IsProper (up done)
up-IsProper [] h = tt
up-IsProper (e ∷ done) h = h.1

ne_of_false : (a b : String) → (a == b) ≡ false → a ≢ b
ne_of_false a b h e = ground (arith, h, e, eq_iff a b)

enter-IsProper : (e : String) (done : List String) → All IsProper done → All IsProper (enter e done)
unfolding enter
enter-IsProper e done h = elim (Bool-cases (e == "")) [
  | inl a ↦ rw a h
  | inr a ↦ elim (Bool-cases (e == ".")) [
    | inl b ↦ rw (a, b) h
    | inr b ↦ elim (Bool-cases (e == "..")) [
      | inl c ↦ rw (a, b, c) (up-IsProper done h)
      | inr c ↦ rw (a, b, c) ((ne_of_false e "" a, ne_of_false e "." b, ne_of_false e ".." c), h)
    ]
  ]
]

enter_all-IsProper : (es done : List String) → All IsProper done → All IsProper (enter_all es done)
unfolding enter_all
enter_all-IsProper [] done h = h
enter_all-IsProper (e ∷ es) done h = enter_all-IsProper es (enter e done) (enter-IsProper e done h)

pub clean-IsProper : (path : String) → All IsProper (clean path)
unfolding clean
clean-IsProper path = enter_all-IsProper (split b'/' path) [] tt

pub join_path-IsProper : (dir rest : String) → All IsProper (join_path dir rest)
unfolding join_path
join_path-IsProper dir rest = clean-IsProper (dir ++ ("/" ++ rest))

pub abs_path-IsProper : (cwd path : String) → All IsProper (abs_path cwd path)
unfolding abs_path
abs_path-IsProper cwd path = elim (Bool-cases (has_prefix path "/")) [
  | inl e ↦ rw e (clean-IsProper path)
  | inr e ↦ rw e (join_path-IsProper cwd path)
]
