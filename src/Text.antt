-- ===== src/Text.antt =====
-- What the program uses of Go's `strings`: texts are sequences of code points, as in the native
-- `String`. Byte counts are those of the UTF-8 encoding.
use Prim.Native.String.{◌++◌}
use kubernetes_agent.Base.{
  ℕ, zero, suc, ◌/◌, ◌%◌, ◌+◌, ◌-◌, ◌*◌, ◌^◌, Option, none, some, String, Bool, true, false, ◌&&◌,
  ◌||◌, List, [], ◌∷◌, Char, code, ltb, leb, nat_eq, ◌==◌, if◌then◌else◌,
}

abbrev pub codes : String → List ℕ
codes String.[] = []
codes (String.◌∷◌ c s) = code c ∷ codes s

-- `strings.Split(s, sep)` for a separator of one character; `""` has the one part `""`
prepend : Char → List String → List String
prepend c [] = String.◌∷◌ c String.[] ∷ []
prepend c (part ∷ parts) = String.◌∷◌ c part ∷ parts

unfoldable pub split : ℕ → String → List String
unfolding prepend
split sep String.[] = "" ∷ []
split sep (String.◌∷◌ c s) =
    let rest = split sep s in if nat_eq (code c) sep then "" ∷ rest else prepend c rest

-- `strings.HasSuffix(s, t)`
unfoldable pub has_suffix : String → String → Bool
has_suffix String.[] t = "" == t
has_suffix (String.◌∷◌ c s) t = String.◌∷◌ c s == t || has_suffix s t

-- `strings.TrimSuffix(s, t)`
unfoldable pub trim_suffix : String → String → String
trim_suffix String.[] t = ""
trim_suffix (String.◌∷◌ c s) t =
    let rest = trim_suffix s t in if String.◌∷◌ c s == t then "" else String.◌∷◌ c rest

-- `strings.HasPrefix(s, t)`
unfoldable pub has_prefix : String → String → Bool
has_prefix s String.[] = true
has_prefix String.[] (String.◌∷◌ d t) = false
has_prefix (String.◌∷◌ c s) (String.◌∷◌ d t) = nat_eq (code c) (code d) && has_prefix s t

-- `strings.Contains(s, t)`
unfoldable pub contains_text : String → String → Bool
unfolding has_prefix
contains_text String.[] t = has_prefix "" t
contains_text (String.◌∷◌ c s) t = has_prefix (String.◌∷◌ c s) t || contains_text s t

-- the rune that Go reads where the bytes are not valid UTF-8
abbrev pub rune_error : ℕ
rune_error = 0xfffd

-- the bytes of one rune
abbrev pub rune_len : ℕ → ℕ
rune_len c = if ltb c 0x80 then 1 else if ltb c 0x800 then 2 else if ltb c 0x10000 then 3 else 4

-- `len(s)`
unfoldable pub byte_len : List ℕ → ℕ
byte_len [] = 0
byte_len (c ∷ s) = rune_len c + byte_len s

-- A rune's representative under simple case folding. `orbit` is Unicode's table above ASCII, which
-- Go generates; it sends U+212A to `k` and U+017F to `s`.
unfoldable pub fold_rune : (ℕ → ℕ) → ℕ → ℕ
fold_rune orbit c = if leb b'A' c && leb c b'Z' then c + 32 else if ltb c 128 then c else orbit c

-- `strings.EqualFold`
unfoldable pub equal_fold : (ℕ → ℕ) → List ℕ → List ℕ → Bool
unfolding fold_rune
equal_fold orbit [] [] = true
equal_fold orbit (c ∷ s) (d ∷ t) =
    nat_eq (fold_rune orbit c) (fold_rune orbit d) && equal_fold orbit s t
equal_fold orbit _ _ = false

-- `strings.ToUpper` of one ASCII character
unfoldable pub upper_ascii : ℕ → ℕ
upper_ascii c = if leb b'a' c && leb c b'z' then c - 32 else c

-- `unicode.IsSpace`
unfoldable pub is_space : ℕ → Bool
is_space c =
    (leb 9 c && leb c 13)
    || nat_eq c 32
    || nat_eq c 0x85
    || nat_eq c 0xA0
    || nat_eq c 0x1680
    || (leb 0x2000 c && leb c 0x200A)
    || nat_eq c 0x2028
    || nat_eq c 0x2029
    || nat_eq c 0x202F
    || nat_eq c 0x205F
    || nat_eq c 0x3000

-- `strings.TrimSpace(s) == ""`
unfoldable pub is_blank : String → Bool
unfolding is_space
is_blank String.[] = true
is_blank (String.◌∷◌ c s) = is_space (code c) && is_blank s

-- the value of decimal digits after `acc`
unfoldable pub digits : ℕ → String → Option ℕ
digits acc String.[] = some acc
digits acc (String.◌∷◌ c s) =
    let rest = digits (acc * 10 + (code c - b'0')) s in
    if leb b'0' (code c) && leb (code c) b'9' then rest else none

-- digits, of which there has to be one
abbrev pub some_digits : String → Option ℕ
some_digits String.[] = none
some_digits (String.◌∷◌ c s) = digits 0 (String.◌∷◌ c s)

abbrev pub in_range : Bool → ℕ → Option ℕ → Option (Bool × ℕ)
in_range negative bound none = none
in_range negative bound (some n) = if leb n bound then some (negative, n) else none

-- `strconv.Atoi` on 64 bits: whether the number has a minus sign, and its magnitude
unfoldable pub atoi : String → Option (Bool × ℕ)
unfolding digits
atoi String.[] = none
atoi (String.◌∷◌ c s) =
    if nat_eq (code c) b'-'
    then in_range true (2 ^ 63) (some_digits s)
    else if nat_eq (code c) b'+'
    then in_range false (2 ^ 63 - 1) (some_digits s)
    else in_range false (2 ^ 63 - 1) (digits 0 (String.◌∷◌ c s))

-- the character at an index
unfoldable pub char_at : ℕ → String → String
char_at n String.[] = ""
char_at zero (String.◌∷◌ c s) = String.◌∷◌ c ""
char_at (suc n) (String.◌∷◌ c s) = char_at n s

-- the decimal digits of a number before a text, at most as many as the fuel
unfoldable pub decimal_onto : ℕ → ℕ → String → String
unfolding char_at
decimal_onto zero n rest = rest
decimal_onto (suc fuel) n rest =
    let text = char_at (n % 10) "0123456789" ++ rest in
    let more = decimal_onto fuel (n / 10) text in if ltb n 10 then text else more

-- `strconv.FormatInt` of 64 bits: a magnitude has 19 digits at most
unfoldable pub decimal : Bool → ℕ → String
unfolding decimal_onto
decimal negative n = let text = decimal_onto 19 n "" in if negative then "-" ++ text else text
