-- ===== src/Json/Marshal.antt =====
-- json.Marshal as a sequence of tokens, with the keys of an object in sorted order. Two values
-- print the same text exactly if they print the same tokens.
use Prim.Native.String.{compare}
use Prim.Native.Nat.{Ordering}
use kubernetes_agent.Base.{
  String, Bool, true, false, List, [], ◌∷◌, ◌++◌, ◌&&◌, ◌≡◌, refl, ◌↔◌, arith, ◌==◌, eq_iff,
  eq_refl, ap, subst, Bool-cases, inl, inr,
}
use mathlib.Core.Path.{ap₂}
use kubernetes_agent.Json.Values.{
  Json, null, bool, num, str, arr, obj, Items, nil, cons, Fields, end, field,
}

pub data Token : Type 0 where
  null_token open_array close_array open_object close_object : Token
  bool_token : Bool → Token
  num_token str_token key_token : String → Token

-- one binding into the sorted ones; a binding further out replaces one of its key
insert_sorted : String → List Token → List (String × List Token) → List (String × List Token)
insert_sorted key ts [] = (key, ts) ∷ []
insert_sorted key ts ((k, us) ∷ rest) = elim (compare key k) [
  | Ordering.lt ↦ (key, ts) ∷ (k, us) ∷ rest
  | Ordering.eq ↦ (key, ts) ∷ rest
  | Ordering.gt ↦ (k, us) ∷ insert_sorted key ts rest
]

abbrev spell : List (String × List Token) → List Token
spell [] = []
spell ((k, ts) ∷ rest) = key_token k ∷ (ts ++ spell rest)

unfoldable mutual
  unfolding insert_sorted

  pub marshal : Json → List Token
  marshal null = null_token ∷ []
  marshal (bool b) = bool_token b ∷ []
  marshal (num t) = num_token t ∷ []
  marshal (str s) = str_token s ∷ []
  marshal (arr xs) = open_array ∷ (marshal_items xs ++ close_array ∷ [])
  marshal (obj fs) = open_object ∷ (spell (marshal_fields fs) ++ close_object ∷ [])

  pub marshal_items : Items → List Token
  marshal_items nil = []
  marshal_items (cons x xs) = marshal x ++ marshal_items xs

  pub marshal_fields : Fields → List (String × List Token)
  marshal_fields end = []
  marshal_fields (field k v fs) = insert_sorted k (marshal v) (marshal_fields fs)

-- `string(a) == string(b)` on two printed values
abbrev token_eq : Token → Token → Bool
token_eq null_token null_token = true
token_eq open_array open_array = true
token_eq close_array close_array = true
token_eq open_object open_object = true
token_eq close_object close_object = true
token_eq (bool_token true) (bool_token true) = true
token_eq (bool_token false) (bool_token false) = true
token_eq (num_token a) (num_token b) = a == b
token_eq (str_token a) (str_token b) = a == b
token_eq (key_token a) (key_token b) = a == b
token_eq _ _ = false

unfoldable pub same_text : List Token → List Token → Bool
same_text [] [] = true
same_text (a ∷ ts) (b ∷ us) = token_eq a b && same_text ts us
same_text _ _ = false

token_eq_self : (a : Token) → token_eq a a ≡ true
token_eq_self null_token = refl
token_eq_self open_array = refl
token_eq_self close_array = refl
token_eq_self open_object = refl
token_eq_self close_object = refl
token_eq_self (bool_token true) = refl
token_eq_self (bool_token false) = refl
token_eq_self (num_token a) = eq_refl a
token_eq_self (str_token a) = eq_refl a
token_eq_self (key_token a) = eq_refl a

token_eq→≡ : (a b : Token) → token_eq a b ≡ true → a ≡ b
token_eq→≡ null_token null_token h = refl
token_eq→≡ (bool_token true) (bool_token true) h = refl
token_eq→≡ (bool_token false) (bool_token false) h = refl
token_eq→≡ (num_token a) (num_token b) h = ap num_token ((eq_iff a b).0 h)
token_eq→≡ (str_token a) (str_token b) h = ap str_token ((eq_iff a b).0 h)
token_eq→≡ (key_token a) (key_token b) h = ap key_token ((eq_iff a b).0 h)
token_eq→≡ a b h = ground arith

same_text_self : (ts : List Token) → same_text ts ts ≡ true
unfolding same_text
same_text_self [] = refl
same_text_self (a ∷ ts) = rw token_eq_self (same_text_self ts)

same_text→≡ : (ts us : List Token) → same_text ts us ≡ true → ts ≡ us
unfolding same_text
same_text→≡ [] [] h = refl
same_text→≡ (a ∷ ts) (b ∷ us) h = elim (Bool-cases (token_eq a b)) [
  | inl e ↦ ap₂ ◌∷◌ (token_eq→≡ a b e) (same_text→≡ ts us (rw e at h))
  | inr e ↦ cc (rw e at h)
]
same_text→≡ ts us h = ground arith

pub same_text_iff : (ts us : List Token) → (same_text ts us ≡ true) ↔ (ts ≡ us)
same_text_iff ts us =
    (same_text→≡ ts us, λ e. subst (λ us. same_text ts us ≡ true) e (same_text_self ts))
