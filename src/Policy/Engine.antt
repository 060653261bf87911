-- ===== src/Policy/Engine.antt =====
-- internal/policy/engine.go. `orbit` is the Unicode table of Text.antt.
use kubernetes_agent.Base.{
  ℕ, String, Bool, true, false, not, ◌&&◌, ◌||◌, List, [], ◌∷◌, ◌++◌, Option, none, some, any, code,
  ltb, ◌==◌, if◌then◌else◌,
}
use kubernetes_agent.Json.{Json, Fields, marshal, same_text}
use kubernetes_agent.Text.{codes, rune_error, rune_len, equal_fold, upper_ascii}
use kubernetes_agent.Policy.Rules.{Effect, Match, Rule, OperationInfo, allow, confirm}
use kubernetes_agent.Policy.JsonPath.{json_path_get}

-- deepEqual: the texts that json.Marshal prints
unfoldable pub deep_equal : Json → Json → Bool
unfolding marshal same_text
deep_equal a b = same_text (marshal a) (marshal b)

-- isWrite
unfoldable pub is_write : String → Bool
is_write a = a == "apply" || a == "delete" || a == "scale"

abbrev repeat : ℕ → ℕ → List ℕ
repeat ℕ.zero c = []
repeat (ℕ.suc n) c = c ∷ repeat n c

-- canonicalKind upper-cases the first BYTE. Where that byte is part of a longer rune, ToUpper
-- replaces it and the rest of the rune is no longer valid: EqualFold reads an error rune a byte.
unfoldable pub canonical_kind : String → List ℕ
unfolding upper_ascii
canonical_kind String.[] = []
canonical_kind (String.◌∷◌ c s) =
    if ltb (code c) 0x80
    then upper_ascii (code c) ∷ codes s
    else repeat (rune_len (code c)) rune_error ++ codes s

abbrev is_empty {ℓ} : {A : Type ℓ} → List A → Bool
is_empty [] = true
is_empty (x ∷ xs) = false

-- the loop over m.UnsafeFields: it stops at the first field that is unsafe
unfoldable pub unsafe_found : List (String × Json) → Fields → Bool
unfolding deep_equal json_path_get
unsafe_found [] m = false
unsafe_found ((path, want) ∷ rest) m = elim (json_path_get m path) [
  | none ↦ unsafe_found rest m
  | some got ↦ if deep_equal got want then true else unsafe_found rest m
]

abbrev unsafe_in : List (String × Json) → Option Fields → Bool
unfolding unsafe_found
unsafe_in fields none = false
unsafe_in fields (some m) = unsafe_found fields m

module _ (orbit : ℕ → ℕ) where
  -- contains
  unfoldable pub contains : List String → List ℕ → Bool
  contains xs s = any (λ x. equal_fold orbit (codes x) s) xs

  -- Match.matches
  unfoldable pub matches : Match → OperationInfo → Bool
  unfolding contains unsafe_found canonical_kind
  matches m op =
      if not (is_empty m.action) && not (contains m.action (codes op.action))
      then false
      else if not (is_empty m.namespace) && not (contains m.namespace (codes op.namespace))
      then false
      else if not (is_empty m.kind) && not (contains m.kind (canonical_kind op.resource))
      then false
      else if not (is_empty m.unsafe_fields)
      then unsafe_in m.unsafe_fields op.manifest
      else true

  -- Evaluate
  unfoldable pub evaluate : List Rule → OperationInfo → Effect
  unfolding is_write
  evaluate [] op = if is_write op.action then confirm else allow
  evaluate (r ∷ rules) op = if matches r.match op then r.effect else evaluate rules op
